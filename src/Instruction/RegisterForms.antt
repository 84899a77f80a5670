-- ===== src/Instruction/RegisterForms.antt =====
-- The form of src/instructions/add.cpp, sub.cpp and cmp.cpp whose two operands are data registers:
-- what PC, the store of the result and the flags leave in the register array.
pub mod Arithmetic
pub mod Compare
pub mod Quick
pub mod Transfer
use m68k_emu.Base.{
  ==_ne, ltb, leb, ℕ, ◌*◌, ◌/◌, ⊤, ◌≡◌, ◌≢◌, ◌∙◌, ◌+◌, ◌%◌, ◌^◌, ◌<◌, arith, refl, ap, Bool, true,
  false, ◌==◌, if◌then◌else◌, add32, sub32,
}
use m68k_emu.Defines.{
  DataSize, byte, word, long, bytes, RegisterType, direct_data, reg_pc, reg_sr, reg_a7, flag_extend,
  flag_negative, flag_zero, flag_overflow, flag_carry, ok, place,
}
use m68k_emu.Helpers.{is_negative, is_zero, is_overflow, is_carry}
use m68k_emu.Helpers.Flags.{range, half, is_negative_lem, is_zero_lem, is_carry_lem}
use m68k_emu.Registers
use m68k_emu.Registers.{Registers}
use m68k_emu.Registers.Access
use m68k_emu.Registers.Access.{IsValid}
use m68k_emu.Registers.ReadBack.{set-other, set-same, same_narrow}
use m68k_emu.Registers.Flags
use m68k_emu.CpuState.{CpuState, ◌>>=◌, ◌>>◌}
use m68k_emu.CpuState.Operands.{get_data}
use m68k_emu.CpuState.Silent.{get_data_silent}
use m68k_emu.CpuState.Store.{set_data}
use m68k_emu.Instruction.Class.{Operands}
use m68k_emu.Instruction.Common.{advance, set_arithmetic_flags, set_compare_flags}
use m68k_emu.Instruction.FlagLaws.{
  with_nzvc, HasFlags, with_nzvc-HasFlags, with_nzvc-get, set_flag-get,
}
use m68k_emu.Instruction.Add
use m68k_emu.Instruction.Sub
use m68k_emu.Instruction.Cmp

-- The fields of `op.size Di, Dj`.
abbrev pub registers : DataSize → (i j : RegisterType) → Operands
registers size i j = record {
  dest_mode = direct_data;
  dest_reg = j;
  src_mode = direct_data;
  src_reg = i;
  data_size = size;
}

-- The registers with PC past the opcode.
abbrev pub past : Registers → Registers
past r = Registers.set r reg_pc long (add32 (Registers.get r reg_pc long) (bytes word))

-- The registers after an instruction that stores `result` in `j` and sets the five flags.
abbrev pub after_result : DataSize → RegisterType → (src dest result : ℕ) → Registers → Registers
after_result size j src dest result r =
    with_nzvc
      (Registers.set_flag (Registers.set r j size result) flag_extend (is_carry result size))
      (is_negative result size) (is_zero result size) (is_overflow src dest size)
      (is_carry result size)

abbrev pub operand : DataSize → RegisterType → CpuState → ℕ
operand size i s = Registers.get (past s.registers) i size

pub past-IsValid : (r : Registers) → IsValid r → IsValid (past r)
past-IsValid r v =
    Access.set-IsValid r reg_pc long (add32 (Registers.get r reg_pc long) (bytes word)) v

pub past_register :
    (r : Registers) (k : RegisterType) (size : DataSize)
    → IsValid r
    → k < 15
    → Registers.get (past r) k size ≡ Registers.get r k size
past_register r k size v lt = same_narrow r (past r) k size v (past-IsValid r v) (
    set-other r reg_pc k long (add32 (Registers.get r reg_pc long) (bytes word)) v (omega arith)
      (omega arith) (omega arith) (omega arith))

-- The flags that the code's tests give for a result.
abbrev pub FlagsOf : DataSize → (src dest result : ℕ) → Registers → Type 0
FlagsOf size src dest result r =
    HasFlags r (leb (half size) (result % range size)) (result % range size == 0)
      (is_overflow src dest size) (leb (range size) result)

pub flags_of :
    (size : DataSize) (src dest result : ℕ) (r : Registers)
    → IsValid r
    → FlagsOf size src dest result (
        with_nzvc r
          (is_negative result size)
          (is_zero result size)
          (is_overflow src dest size)
          (is_carry result size))
flags_of size src dest result r v =
    rw (is_negative_lem result size, is_zero_lem result size, is_carry_lem result size)
      (with_nzvc-HasFlags r _ _ _ _ v)

-- What an instruction that stores a result in a data register does: the register holds it as far as
-- the size goes, the other data registers, A0 to A6 and the memory stay, PC is past the opcode, and
-- the flags are those of the result.
pub record Stores (size : DataSize) (j : RegisterType) (src dest result : ℕ) (s s' : CpuState)
    : Type 0 where
  pub memory : s'.memory ≡ s.memory
  pub stored : Registers.get s'.registers j size ≡ result % range size
  pub others :
      (k : RegisterType)
      → k < 15
      → j ≢ k
      → Registers.get s'.registers k long ≡ Registers.get s.registers k long
  pub counter :
      Registers.get s'.registers reg_pc long ≡ (Registers.get s.registers reg_pc long + 2) % 2 ^ 32
  pub flags : FlagsOf size src dest result s'.registers

module _ (size : DataSize) (j src dest result : ℕ) (r : Registers) (v : IsValid r)
    (lt : j < 8) where
  kept :
      (k : ℕ) (size' : DataSize)
      → k ≢ reg_sr
      → Registers.get (after_result size j src dest result r) k size'
        ≡ Registers.get (Registers.set r j size result) k size'
  kept k size' ns =
      let v' = Access.set-IsValid r j size result v in
      with_nzvc-get _ _ _ _ _ k size' (Flags.set_flag-IsValid _ flag_extend _ v') ns
      ∙ set_flag-get _ flag_extend _ k size' v' ns (omega arith)

  after_result-stored :
      Registers.get (after_result size j src dest result r) j size ≡ result % range size
  after_result-stored = kept j size (omega arith) ∙ set-same r j size result v (omega arith)

  after_result-other :
      (k : ℕ)
      → k ≢ reg_sr
      → k ≢ reg_a7
      → j ≢ k
      → Registers.get (after_result size j src dest result r) k long ≡ Registers.get r k long
  after_result-other k ns na ne =
      kept k long ns ∙ set-other r j k size result v (omega arith) ne (omega arith) na

  after_result-flags : FlagsOf size src dest result (after_result size j src dest result r)
  after_result-flags =
      flags_of size src dest result _
        (Flags.set_flag-IsValid _ flag_extend _ (Access.set-IsValid r j size result v))

pub past_counter :
    (r : Registers)
    → IsValid r
    → Registers.get (past r) reg_pc long ≡ (Registers.get r reg_pc long + 2) % 2 ^ 32
past_counter r v =
    rw (set-same r reg_pc long (add32 (Registers.get r reg_pc long) (bytes word)) v (omega arith))
      (ground arith)

pub after_past :
    (size : DataSize) (j src dest result : ℕ) (s : CpuState)
    → IsValid s.registers
    → j < 8
    → Stores size j src dest result s (record {
      memory = s.memory;
      registers = after_result size j src dest result (past s.registers);
    })
after_past size j src dest result s v lt =
    let r = s.registers in
    let v' = past-IsValid r v in
    record {
      memory = refl;
      stored = after_result-stored size j src dest result (past r) v' lt;
      others = λ k k8 ne.
          after_result-other size j src dest result (past r) v' lt k (omega arith) (omega arith) ne
          ∙ past_register r k long v k8;
      counter =
          after_result-other size j src dest result (past r) v' lt reg_pc (omega arith)
            (omega arith) (omega arith)
          ∙ past_counter r v;
      flags = after_result-flags size j src dest result (past r) v' lt;
    }

pub operand-data :
    (size : DataSize) (i : RegisterType) (s : CpuState)
    → IsValid s.registers
    → i < 8
    → operand size i s ≡ Registers.get s.registers i size
operand-data size i s v lt = past_register s.registers i size v (omega arith)
