-- ===== src/Instruction/RegisterForms/Transfer.antt =====
-- MOVE between data registers, src/instructions/move.cpp.
use m68k_emu.Base.{ℕ, ◌≡◌, ◌≢◌, ◌∙◌, ◌+◌, ◌%◌, ◌^◌, ◌<◌, arith, refl, false, ◌==◌, leb}
use m68k_emu.Defines.{DataSize, byte, word, long, RegisterType, direct_data, reg_pc, reg_sr, ok}
use m68k_emu.Helpers.{is_negative}
use m68k_emu.Helpers.Flags.{range, half, is_negative_lem}
use m68k_emu.Registers
use m68k_emu.Registers.{Registers}
use m68k_emu.Registers.Access
use m68k_emu.Registers.ReadBack.{set-other, set-same}
use m68k_emu.Registers.Access.{IsValid}
use m68k_emu.CpuState.{CpuState, ◌>>=◌}
use m68k_emu.CpuState.Operands.{get_data}
use m68k_emu.CpuState.Store.{set_data}
use m68k_emu.Instruction.Class.{Move}
use m68k_emu.Instruction.Common.{advance}
use m68k_emu.Instruction.FlagLaws.{with_nzvc, HasFlags, with_nzvc-HasFlags, with_nzvc-get}
use m68k_emu.Instruction.Move
use m68k_emu.Instruction.RegisterForms.{
  past, operand, past-IsValid, past_register, past_counter, operand-data,
}

-- The fields of `MOVE.size Di, Dj`.
abbrev pub transfer : DataSize → (i j : RegisterType) → Move
transfer size i j = record {
  dest_mode = direct_data;
  src_mode = direct_data;
  src_reg = i;
  dest_reg = j;
  data_size = size;
  is_movea = false;
}

abbrev moved : DataSize → RegisterType → (value : ℕ) → Registers → Registers
moved size j value r =
    with_nzvc (Registers.set r j size value) (is_negative value size) (value == 0) false false

move_run :
    (size : DataSize) (i j : RegisterType) (s : CpuState)
    → Move.execute (transfer size i j) s ≡ (
      ok tt,
      record { memory = s.memory; registers = moved size j (operand size i s) (past s.registers) },
    )
unfolding Move.execute Move.move_data advance get_data set_data ◌>>=◌
move_run size i j s = refl

-- What a move of `value` into a data register leaves.
pub record Moves (size : DataSize) (j : RegisterType) (value : ℕ) (s s' : CpuState) : Type 0 where
  pub memory : s'.memory ≡ s.memory
  pub stored : Registers.get s'.registers j size ≡ value
  pub others :
      (k : RegisterType)
      → k < 15
      → j ≢ k
      → Registers.get s'.registers k long ≡ Registers.get s.registers k long
  pub counter :
      Registers.get s'.registers reg_pc long ≡ (Registers.get s.registers reg_pc long + 2) % 2 ^ 32
  pub flags : HasFlags s'.registers (leb (half size) value) (value == 0) false false

small : (size : DataSize) (value : ℕ) → value < range size → value % range size ≡ value
small byte value h = omega arith
small word value h = omega arith
small long value h = omega arith

module _ (size : DataSize) (j value : ℕ) (s : CpuState) (v : IsValid s.registers) (lt : j < 8) where
  stored-IsValid : IsValid (Registers.set (past s.registers) j size value)
  stored-IsValid = Access.set-IsValid (past s.registers) j size value (past-IsValid s.registers v)

  other :
      (k : ℕ)
      → k ≢ reg_sr
      → k ≢ 15
      → j ≢ k
      → Registers.get (moved size j value (past s.registers)) k long
        ≡ Registers.get (past s.registers) k long
  other k ns na ne =
      with_nzvc-get _ _ _ _ _ k long stored-IsValid ns
      ∙ set-other (past s.registers) j k size value (past-IsValid s.registers v) (omega arith) ne
          (omega arith) na

  moved-Moves :
      value < range size
      → Moves size j value s
          (record { memory = s.memory; registers = moved size j value (past s.registers) })
  moved-Moves h = record {
    memory = refl;
    stored =
        with_nzvc-get _ _ _ _ _ j size stored-IsValid (omega arith)
        ∙ set-same (past s.registers) j size value (past-IsValid s.registers v) (omega arith)
        ∙ small size value h;
    others =
        λ k k8 ne. other k (omega arith) (omega arith) ne ∙ past_register s.registers k long v k8;
    counter = other reg_pc (omega arith) (omega arith) (omega arith) ∙ past_counter s.registers v;
    flags =
        rw (is_negative_lem value size, small size value h)
          (with_nzvc-HasFlags (Registers.set (past s.registers) j size value) _ _ _ _
            stored-IsValid);
  }

-- In a state with 32-bit registers, `MOVE.size Di, Dj` on data registers returns. Dj then reads at this
-- size as Di did; the memory, the other data registers and A0 to A6 stay, PC is past the opcode, N and Z
-- are those of the value, and V and C are clear.
pub move_registers :
    (size : DataSize) (i j : RegisterType) (s : CpuState)
    → IsValid s.registers
    → i < 8
    → j < 8
    → (s' : CpuState) × (Move.execute (transfer size i j) s ≡ (ok tt, s'))
      × Moves size j (Registers.get s.registers i size) s s'
move_registers size i j s v hi hj = (
  _,
  move_run size i j s,
  rw (operand-data size i s v hi) (
      moved-Moves size j (Registers.get s.registers i size) s v hj
        (Access.get-lt s.registers i size v)),
)
