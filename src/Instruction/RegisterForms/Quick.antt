-- ===== src/Instruction/RegisterForms/Quick.antt =====
-- SUBQ on a data register, src/instructions/subq.cpp.
use m68k_emu.Base.{ℕ, ◌≡◌, ◌<◌, refl, sub32}
use m68k_emu.Defines.{DataSize, RegisterType, direct_data, ok}
use m68k_emu.Registers
use m68k_emu.Registers.Access.{IsValid}
use m68k_emu.CpuState.{CpuState, ◌>>=◌}
use m68k_emu.CpuState.Silent.{get_data_silent}
use m68k_emu.CpuState.Store.{set_data}
use m68k_emu.Instruction.Class.{Quick}
use m68k_emu.Instruction.Common.{advance, set_arithmetic_flags}
use m68k_emu.Instruction.Subq
use m68k_emu.Instruction.RegisterForms.{
  past, after_result, operand, Stores, after_past, operand-data,
}

-- The fields of `subq.size #imm, Dj`.
abbrev pub quick : DataSize → (imm : ℕ) → (j : RegisterType) → Quick
quick size imm j = record {
  dest_mode = direct_data;
  dest_reg = j;
  imm_data = imm;
  data_size = size;
}

subq_run :
    (size : DataSize) (imm : ℕ) (j : RegisterType) (s : CpuState)
    → Subq.execute (quick size imm j) s ≡ (
      ok tt,
      record {
        memory = s.memory;
        registers =
            after_result size j imm
              (operand size j s)
              (sub32 (operand size j s) imm)
              (past s.registers);
      },
    )
unfolding Subq.execute advance get_data_silent set_data set_arithmetic_flags ◌>>=◌
subq_run size imm j s = refl

pub subq_register :
    (size : DataSize) (imm : ℕ) (j : RegisterType) (s : CpuState)
    → IsValid s.registers
    → j < 8
    → (s' : CpuState) × (Subq.execute (quick size imm j) s ≡ (ok tt, s'))
      × Stores size j imm
          (Registers.get s.registers j size)
          (sub32 (Registers.get s.registers j size) imm)
          s
          s'
subq_register size imm j s v hj = (
  _,
  subq_run size imm j s,
  rw (operand-data size j s v hj) (
      after_past size j imm (Registers.get s.registers j size)
        (sub32 (Registers.get s.registers j size) imm) s v hj),
)
