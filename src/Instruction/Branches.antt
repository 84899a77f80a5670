-- ===== src/Instruction/Branches.antt =====
-- Short conditional branches: src/instructions/bcc.cpp with a displacement in the opcode.
use m68k_emu.Base.{ℕ, ◌≡◌, ◌≢◌, refl, Bool, true, false, if◌then◌else◌, add32, sext8}
use m68k_emu.Defines.{
  byte, long, reg_pc, Condition, cond_true, cond_false, flag_carry, flag_zero, flag_negative,
  flag_overflow, ok,
}
use m68k_emu.Registers
use m68k_emu.Registers.{Registers}
use m68k_emu.CpuState.{CpuState, holds, check_condition, set_register, pure, ◌>>=◌}
use m68k_emu.Instruction.Class.{Bcc}
use m68k_emu.Instruction.Common.{advance}
use m68k_emu.Instruction.Bcc
use m68k_emu.Instruction.RegisterForms.{past}

-- Whether a condition holds on the flags of a register array.
abbrev pub taken : Condition → Registers → Bool
taken c r =
    holds c (Registers.get_flag r flag_negative) (Registers.get_flag r flag_zero)
      (Registers.get_flag r flag_overflow) (Registers.get_flag r flag_carry)

-- PC set to `target` if `b`, and the state as it is if not.
abbrev pub branched : Bool → (target : ℕ) (s : CpuState) → CpuState
branched b target s =
    if b then record s { registers = Registers.set s.registers reg_pc long target } else s

chosen :
    (b : Bool) (target : ℕ) (s : CpuState)
    → (if b then set_register reg_pc long target else pure tt) s ≡ (ok tt, branched b target s)
unfolding set_register pure
chosen true target s = refl
chosen false target s = refl

branch_lem :
    (c : Condition) (pc displacement : ℕ) (s : CpuState)
    → c ≢ cond_true
    → c ≢ cond_false
    → Bcc.branch c pc displacement s
      ≡ (ok tt, branched (taken c s.registers) (add32 pc displacement) s)
unfolding Bcc.branch check_condition ◌>>=◌
branch_lem cond_true pc displacement s ht hf = absurd (ht refl)
branch_lem cond_false pc displacement s ht hf = absurd (hf refl)
branch_lem c pc displacement s ht hf = chosen (taken c s.registers) (add32 pc displacement) s

-- A conditional branch with its displacement in the opcode returns. If its condition holds on the
-- flags, PC moves past the opcode and on by the signed displacement; if not, PC moves past the opcode
-- only. Nothing else changes.
pub execute_short :
    (f : Bcc) (s : CpuState)
    → f.data_size ≡ byte
    → f.condition ≢ cond_true
    → f.condition ≢ cond_false
    → Bcc.execute f s ≡ (
      ok tt,
      let next = add32 (Registers.get s.registers reg_pc long) 2 in
          branched
            (taken f.condition (past s.registers))
            (add32 next (sext8 f.displacement_8))
            (record s { registers = past s.registers }),
    )
unfolding Bcc.execute Bcc.get_displacement advance ◌>>=◌
execute_short f s hd ht hf = rw hd (
    branch_lem f.condition (add32 (Registers.get s.registers reg_pc long) 2)
      (sext8 f.displacement_8) (record s { registers = past s.registers }) ht hf)
