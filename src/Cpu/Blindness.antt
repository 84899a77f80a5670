-- ===== src/Cpu/Blindness.antt =====
-- The emulator uses its memory through `IMemory` only: what lies behind the memory's size has no
-- influence on a run.
use m68k_emu.Base.{ℕ, zero, suc, ◌≡◌, Bool, true, false}
use m68k_emu.Defines.{DataSize, byte, Condition, cond_true}
use m68k_emu.Memory.Bytes.{IsBytes}
use m68k_emu.Memory.Cells.{cells}
use m68k_emu.CpuState.{CpuState}
use m68k_emu.CpuState.Alike.{Alike, Blind, Blind-bind, blind_rules}
use m68k_emu.Instruction.Common.{advance, set_arithmetic_flags, set_compare_flags, set_logic_flags}
use m68k_emu.Instruction.Class.{
  Class, add, sub, and, or, eor, addx, subx, adda, suba, cmp, cmpa, addi, subi, andi, ori, eori,
  cmpi, clr, neg, jmp, jsr, addq, subq, moveq, mul, div, move, pea, ext, tst, lea, bcc, scc,
  bit_manip, bit_shift, link, unlk, rts, nop, illegal, BitShiftType, arithmetic, Bcc,
}
use m68k_emu.Cpu.{execute, step, steps}
use m68k_emu.Instruction.Add
use m68k_emu.Instruction.Sub
use m68k_emu.Instruction.And
use m68k_emu.Instruction.Or
use m68k_emu.Instruction.Eor
use m68k_emu.Instruction.Addx
use m68k_emu.Instruction.Subx
use m68k_emu.Instruction.Adda
use m68k_emu.Instruction.Suba
use m68k_emu.Instruction.Cmp
use m68k_emu.Instruction.Cmpa
use m68k_emu.Instruction.Addi
use m68k_emu.Instruction.Subi
use m68k_emu.Instruction.Andi
use m68k_emu.Instruction.Ori
use m68k_emu.Instruction.Eori
use m68k_emu.Instruction.Cmpi
use m68k_emu.Instruction.Clr
use m68k_emu.Instruction.Neg
use m68k_emu.Instruction.Jmp
use m68k_emu.Instruction.Jsr
use m68k_emu.Instruction.Addq
use m68k_emu.Instruction.Subq
use m68k_emu.Instruction.Moveq
use m68k_emu.Instruction.Mul
use m68k_emu.Instruction.Div
use m68k_emu.Instruction.Move
use m68k_emu.Instruction.Pea
use m68k_emu.Instruction.Ext
use m68k_emu.Instruction.Tst
use m68k_emu.Instruction.Lea
use m68k_emu.Instruction.Bcc
use m68k_emu.Instruction.Scc
use m68k_emu.Instruction.BitManip
use m68k_emu.Instruction.BitShift
use m68k_emu.Instruction.Link
use m68k_emu.Instruction.Unlk
use m68k_emu.Instruction.Rts
use m68k_emu.Instruction.Nop
use m68k_emu.Instruction.Illegal

advance-Blind : Blind advance
unfolding advance
advance-Blind = search blind_rules

set_arithmetic_flags-Blind :
    (src_data dest_data result : ℕ) (size : DataSize)
    → Blind (set_arithmetic_flags src_data dest_data result size)
unfolding set_arithmetic_flags
set_arithmetic_flags-Blind src_data dest_data result size = search blind_rules depth 9

set_logic_flags-Blind : (result : ℕ) (size : DataSize) → Blind (set_logic_flags result size)
unfolding set_logic_flags
set_logic_flags-Blind result size = search blind_rules depth 9

set_compare_flags-Blind :
    (src_data dest_data result : ℕ) (size : DataSize)
    → Blind (set_compare_flags src_data dest_data result size)
unfolding set_compare_flags
set_compare_flags-Blind src_data dest_data result size = search blind_rules depth 9

ruleset rules = (
  blind_rules, advance-Blind, set_arithmetic_flags-Blind, set_logic_flags-Blind,
  set_compare_flags-Blind,
)

get_displacement-Blind : (f : Bcc) (size : DataSize) → Blind (Bcc.get_displacement f size)
unfolding Bcc.get_displacement
get_displacement-Blind f byte = search rules
get_displacement-Blind f _ = search rules

branch-Blind :
    (condition : Condition) (pc displacement : ℕ) → Blind (Bcc.branch condition pc displacement)
unfolding Bcc.branch
branch-Blind cond_true pc displacement = search rules
branch-Blind _ pc displacement = search rules

shifted-Blind :
    (type : BitShiftType) (left : Bool) (size : DataSize) (addr_data shift : ℕ)
    → Blind (BitShift.shifted type left size addr_data shift)
unfolding BitShift.shifted BitShift.set_carry_extend BitShift.shift_left BitShift.shift_right
    BitShift.rotate_extend_left BitShift.rotate_extend_right BitShift.rotate_left
    BitShift.rotate_right
shifted-Blind arithmetic true size addr_data shift = search rules depth 9
shifted-Blind arithmetic false size addr_data shift = search rules depth 9
shifted-Blind _ true size addr_data shift = search rules depth 9
shifted-Blind _ false size addr_data shift = search rules depth 9

ruleset parts = (rules, get_displacement-Blind, branch-Blind, shifted-Blind)

execute-Blind : (c : Class) → Blind (execute c)
unfolding execute Add.execute Sub.execute And.execute Or.execute Eor.execute Addx.execute
    Subx.execute Adda.execute Suba.execute Cmp.execute Cmpa.execute Addi.execute Subi.execute
    Andi.execute Ori.execute Eori.execute Cmpi.execute Clr.execute Neg.execute Jmp.execute
    Jsr.execute Addq.execute Subq.execute Moveq.execute Mul.execute Div.execute Move.execute
    Pea.execute Ext.execute Tst.execute Lea.execute Bcc.execute Scc.execute BitManip.execute
    BitShift.execute Link.execute Unlk.execute Rts.execute Nop.execute Illegal.execute Div.divide
    Move.move_to_address Move.move_data BitShift.shift_count
execute-Blind (add f) = search parts depth 14
execute-Blind (sub f) = search parts depth 14
execute-Blind (and f) = search parts depth 14
execute-Blind (or f) = search parts depth 14
execute-Blind (eor f) = search parts depth 14
execute-Blind (addx f) = search parts depth 14
execute-Blind (subx f) = search parts depth 14
execute-Blind (adda f) = search parts depth 14
execute-Blind (suba f) = search parts depth 14
execute-Blind (cmp f) = search parts depth 14
execute-Blind (cmpa f) = search parts depth 14
execute-Blind (addi f) = search parts depth 14
execute-Blind (subi f) = search parts depth 14
execute-Blind (andi f) = search parts depth 14
execute-Blind (ori f) = search parts depth 14
execute-Blind (eori f) = search parts depth 14
execute-Blind (cmpi f) = search parts depth 14
execute-Blind (clr f) = search parts depth 14
execute-Blind (neg f) = search parts depth 14
execute-Blind (jmp f) = search parts depth 14
execute-Blind (jsr f) = search parts depth 14
execute-Blind (addq f) = search parts depth 14
execute-Blind (subq f) = search parts depth 14
execute-Blind (moveq f) = search parts depth 14
execute-Blind (mul f) = search parts depth 14
execute-Blind (div f) = search parts depth 14
execute-Blind (move f) = search parts depth 14
execute-Blind (pea f) = search parts depth 14
execute-Blind (ext f) = search parts depth 14
execute-Blind (tst f) = search parts depth 14
execute-Blind (lea f) = search parts depth 14
execute-Blind (bcc f) = search parts depth 14
execute-Blind (scc f) = search parts depth 14
execute-Blind (bit_manip f) = search parts depth 14
execute-Blind (bit_shift f) = search parts depth 14
execute-Blind (link f) = search parts depth 14
execute-Blind (unlk f) = search parts depth 14
execute-Blind rts = search parts depth 14
execute-Blind nop = search parts depth 14
execute-Blind illegal = search parts depth 14

step-Blind : Blind step
unfolding step
step-Blind = search (parts, execute-Blind) depth 14

steps-Blind : (count : ℕ) → Blind (steps count)
unfolding steps
steps-Blind zero = search parts
steps-Blind (suc count) = Blind-bind step (λ _. steps count) step-Blind (λ _. steps-Blind count)

-- Two states with the same registers, whose memories of bytes have the same cells, give the same
-- outcome of any number of steps, returned or thrown, and end with the same registers and the same
-- cells: a run depends on its memory only through the partial map that the memory stands for.
pub steps_alike :
    (count : ℕ) (s t : CpuState)
    → s.registers ≡ t.registers
    → cells s.memory ≡ cells t.memory
    → IsBytes s.memory.base_addr
    → IsBytes t.memory.base_addr
    → ((steps count s).0 ≡ (steps count t).0)
      × ((steps count s).1.registers ≡ (steps count t).1.registers)
      × (cells (steps count s).1.memory ≡ cells (steps count t).1.memory)
steps_alike count s t r c bs bt =
    let alike : Alike s t = record {
      registers = r;
      memory = record { cells = c; left = bs; right = bt };
    } in
    let (same, after) = (steps-Blind count).at s t alike in
    (same, after.registers, after.memory.cells)
