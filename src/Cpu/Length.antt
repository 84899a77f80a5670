-- ===== src/Cpu/Length.antt =====
-- Disassembly and execution of instructions with two operands take the same words.
use m68k_emu.Base.{◌≡◌, ◌<◌, true, add32, sub32, bit_and, bit_or, bit_xor, ◌++◌}
use m68k_emu.Base.Text.{codes}
use m68k_emu.Defines.{immediate, reg_d0}
use m68k_emu.Helpers.{is_memory_alterable}
use m68k_emu.CpuState.{CpuState, ◌>>=◌}
use m68k_emu.Instruction.Class.{
  Class, Operands, Dest, add, sub, and, or, eor, addi, subi, andi, ori, eori, cmp, cmpi, cmpa,
}
use m68k_emu.Instruction.Common.{advance, set_arithmetic_flags, set_compare_flags, set_logic_flags}
use m68k_emu.Disassembler.{size_suffix}
use m68k_emu.Disassembler.Agreement.{is_ok, counter}
use m68k_emu.Disassembler.Length.{
  printed_read, set_arithmetic_flags-Counts, set_compare_flags-Counts, set_logic_flags-Counts,
}
use m68k_emu.Disassembler.Compares.{compared}
use m68k_emu.Cpu.{execute}
use m68k_emu.Cpu.Disassembly.{disassembly}
use m68k_emu.Instruction.Addi
use m68k_emu.Instruction.Subi
use m68k_emu.Instruction.Andi
use m68k_emu.Instruction.Ori
use m68k_emu.Instruction.Eori
use m68k_emu.Instruction.Cmp
use m68k_emu.Instruction.Cmpi
use m68k_emu.Instruction.Cmpa
use m68k_emu.Instruction.Add
use m68k_emu.Instruction.Sub
use m68k_emu.Instruction.And
use m68k_emu.Instruction.Or
use m68k_emu.Instruction.Eor

-- An ADD, SUB, AND, OR or EOR on data and address registers, with a destination that it may alter.
abbrev Registered : Operands → Type 0
Registered f = (f.src_reg < 16) × (f.dest_reg < 16) × (is_memory_alterable f.dest_mode ≡ true)

-- A comparison on data and address registers.
abbrev Comparing : Operands → Type 0
Comparing f = (f.src_reg < 16) × (f.dest_reg < 16)

-- The fields of an immediate form as those of a form with two operands.
abbrev with_immediate : Dest → Operands
with_immediate f = record {
  dest_mode = f.dest_mode;
  dest_reg = f.dest_reg;
  src_mode = immediate;
  src_reg = reg_d0;
  data_size = f.data_size;
}

abbrev pub TwoOperands : Class → Type 0
TwoOperands (add f) = Registered f
TwoOperands (sub f) = Registered f
TwoOperands (and f) = Registered f
TwoOperands (or f) = Registered f
TwoOperands (eor f) = Registered f
TwoOperands (addi f) = Registered (with_immediate f)
TwoOperands (subi f) = Registered (with_immediate f)
TwoOperands (andi f) = Registered (with_immediate f)
TwoOperands (ori f) = Registered (with_immediate f)
TwoOperands (eori f) = Registered (with_immediate f)
TwoOperands (cmp f) = Comparing f
TwoOperands (cmpa f) = Comparing f
TwoOperands (cmpi f) = Comparing (with_immediate f)
TwoOperands _ = ⊥

-- If an ADD, SUB, AND, OR, EOR, ADDI, SUBI, ANDI, ORI or EORI in any modes on data and address
-- registers, with a destination that it may alter, or a CMP, CMPA or CMPI in any modes on such
-- registers, executes without a throw, then it can be disassembled in the same state, and both leave
-- PC at the same address.
pub disassembly-execute :
    (c : Class) (s : CpuState)
    → TwoOperands c
    → is_ok (execute c s).0 ≡ true
    → (is_ok (disassembly c s).0 ≡ true) × (counter (disassembly c s).1 ≡ counter (execute c s).1)
unfolding execute disassembly advance Cmp.execute Cmpi.execute Cmpa.execute Cmp.disassembly
    Cmpi.disassembly Cmpa.disassembly Add.execute Sub.execute And.execute Or.execute Eor.execute
    Add.disassembly Sub.disassembly And.disassembly Or.disassembly Eor.disassembly Addi.execute
    Subi.execute Andi.execute Ori.execute Eori.execute Addi.disassembly Subi.disassembly
    Andi.disassembly Ori.disassembly Eori.disassembly ◌>>=◌
disassembly-execute (add f) s (hs, hd, st) h =
    printed_read f hs hd st (codes "add" ++ size_suffix f.data_size) (λ x y. add32 x y)
      (λ x y. set_arithmetic_flags x y (add32 x y) f.data_size)
      (λ x y c. set_arithmetic_flags-Counts x y (add32 x y) f.data_size) (advance s).1 h
disassembly-execute (sub f) s (hs, hd, st) h =
    printed_read f hs hd st (codes "sub" ++ size_suffix f.data_size) (λ x y. sub32 y x)
      (λ x y. set_arithmetic_flags x y (sub32 y x) f.data_size)
      (λ x y c. set_arithmetic_flags-Counts x y (sub32 y x) f.data_size) (advance s).1 h
disassembly-execute (and f) s (hs, hd, st) h =
    printed_read f hs hd st (codes "and" ++ size_suffix f.data_size) (λ x y. bit_and x y)
      (λ x y. set_logic_flags (bit_and x y) f.data_size)
      (λ x y c. set_logic_flags-Counts (bit_and x y) f.data_size) (advance s).1 h
disassembly-execute (or f) s (hs, hd, st) h =
    printed_read f hs hd st (codes "or" ++ size_suffix f.data_size) (λ x y. bit_or y x)
      (λ x y. set_logic_flags (bit_or y x) f.data_size)
      (λ x y c. set_logic_flags-Counts (bit_or y x) f.data_size) (advance s).1 h
disassembly-execute (eor f) s (hs, hd, st) h =
    printed_read f hs hd st (codes "eor" ++ size_suffix f.data_size) (λ x y. bit_xor y x)
      (λ x y. set_logic_flags (bit_xor y x) f.data_size)
      (λ x y c. set_logic_flags-Counts (bit_xor y x) f.data_size) (advance s).1 h
disassembly-execute (addi f) s (hs, hd, st) h =
    printed_read (with_immediate f) hs hd st (codes "addi" ++ size_suffix f.data_size)
      (λ x y. add32 x y) (λ x y. set_arithmetic_flags x y (add32 x y) f.data_size)
      (λ x y c. set_arithmetic_flags-Counts x y (add32 x y) f.data_size) (advance s).1 h
disassembly-execute (subi f) s (hs, hd, st) h =
    printed_read (with_immediate f) hs hd st (codes "subi" ++ size_suffix f.data_size)
      (λ x y. sub32 y x) (λ x y. set_arithmetic_flags x y (sub32 y x) f.data_size)
      (λ x y c. set_arithmetic_flags-Counts x y (sub32 y x) f.data_size) (advance s).1 h
disassembly-execute (andi f) s (hs, hd, st) h =
    printed_read (with_immediate f) hs hd st (codes "andi" ++ size_suffix f.data_size)
      (λ x y. bit_and x y) (λ x y. set_logic_flags (bit_and x y) f.data_size)
      (λ x y c. set_logic_flags-Counts (bit_and x y) f.data_size) (advance s).1 h
disassembly-execute (ori f) s (hs, hd, st) h =
    printed_read (with_immediate f) hs hd st (codes "ori" ++ size_suffix f.data_size)
      (λ x y. bit_or y x) (λ x y. set_logic_flags (bit_or y x) f.data_size)
      (λ x y c. set_logic_flags-Counts (bit_or y x) f.data_size) (advance s).1 h
disassembly-execute (eori f) s (hs, hd, st) h =
    printed_read (with_immediate f) hs hd st (codes "eori" ++ size_suffix f.data_size)
      (λ x y. bit_xor y x) (λ x y. set_logic_flags (bit_xor y x) f.data_size)
      (λ x y c. set_logic_flags-Counts (bit_xor y x) f.data_size) (advance s).1 h
disassembly-execute (cmp f) s (hs, hd) h =
    compared f hs hd (codes "cmp" ++ size_suffix f.data_size)
      (λ x y. set_compare_flags x y (sub32 y x) f.data_size)
      (λ x y c. set_compare_flags-Counts x y (sub32 y x) f.data_size) (advance s).1 h
disassembly-execute (cmpi f) s (hs, hd) h =
    compared (with_immediate f) hs hd (codes "cmpi" ++ size_suffix f.data_size)
      (λ x y. set_compare_flags x y (sub32 y x) f.data_size)
      (λ x y c. set_compare_flags-Counts x y (sub32 y x) f.data_size) (advance s).1 h
disassembly-execute (cmpa f) s (hs, hd) h =
    compared f hs hd (codes "cmpa" ++ size_suffix f.data_size)
      (λ x y.
        set_compare_flags (Cmpa.extended f.data_size x) y (sub32 y (Cmpa.extended f.data_size x))
          f.data_size)
      (λ x y c.
        set_compare_flags-Counts (Cmpa.extended f.data_size x) y
          (sub32 y (Cmpa.extended f.data_size x)) f.data_size)
      (advance s).1 h
disassembly-execute _ s x h = elim x [ ]
