-- ===== src/Instruction/RegisterForms/Arithmetic.antt =====
-- ADD and SUB between data registers, src/instructions/add.cpp and sub.cpp.
use m68k_emu.Base.{◌≡◌, ◌<◌, refl, add32, sub32}
use m68k_emu.Defines.{DataSize, RegisterType, ok}
use m68k_emu.Registers
use m68k_emu.Registers.{Registers}
use m68k_emu.Registers.Access.{IsValid}
use m68k_emu.CpuState.{CpuState, ◌>>=◌}
use m68k_emu.CpuState.Operands.{get_data}
use m68k_emu.CpuState.Silent.{get_data_silent}
use m68k_emu.CpuState.Store.{set_data}
use m68k_emu.Instruction.Common.{advance, set_arithmetic_flags}
use m68k_emu.Instruction.Add
use m68k_emu.Instruction.Sub
use m68k_emu.Instruction.RegisterForms.{
  registers, past, after_result, operand, Stores, after_past, operand-data,
}

add_run :
    (size : DataSize) (i j : RegisterType) (s : CpuState)
    → Add.execute (registers size i j) s ≡ (
      ok tt,
      record {
        memory = s.memory;
        registers =
            after_result size j
              (operand size i s)
              (operand size j s)
              (add32 (operand size i s) (operand size j s))
              (past s.registers);
      },
    )
unfolding Add.execute advance get_data get_data_silent set_data set_arithmetic_flags ◌>>=◌
add_run size i j s = refl

sub_run :
    (size : DataSize) (i j : RegisterType) (s : CpuState)
    → Sub.execute (registers size i j) s ≡ (
      ok tt,
      record {
        memory = s.memory;
        registers =
            after_result size j
              (operand size i s)
              (operand size j s)
              (sub32 (operand size j s) (operand size i s))
              (past s.registers);
      },
    )
unfolding Sub.execute advance get_data get_data_silent set_data set_arithmetic_flags ◌>>=◌
sub_run size i j s = refl

-- In a state with 32-bit registers, `ADD.size Di, Dj` on data registers returns. It stores the 32-bit sum of the operands in Dj as far
-- as the size goes, leaves the memory, the other data registers and A0 to A6, moves PC past the opcode, and
-- sets N and Z from the stored result, V from the overflow test on the operands, and C when the
-- 32-bit sum exceeds the size.
pub add_registers :
    (size : DataSize) (i j : RegisterType) (s : CpuState)
    → IsValid s.registers
    → i < 8
    → j < 8
    → (s' : CpuState) × (Add.execute (registers size i j) s ≡ (ok tt, s'))
      × Stores size j
          (Registers.get s.registers i size)
          (Registers.get s.registers j size)
          (add32 (Registers.get s.registers i size) (Registers.get s.registers j size))
          s
          s'
add_registers size i j s v hi hj = (
  _,
  add_run size i j s,
  rw (operand-data size i s v hi, operand-data size j s v hj)
      (after_past size j (Registers.get s.registers i size) (Registers.get s.registers j size)
        (add32 (Registers.get s.registers i size) (Registers.get s.registers j size)) s v hj),
)

-- In a state with 32-bit registers, `SUB.size Di, Dj` on data registers returns. It stores Dj less Di, wrapped to 32 bits, in Dj as
-- far as the size goes, leaves the memory, the other data registers and A0 to A6, moves PC past the opcode,
-- and sets N and Z from the stored result, V from the overflow test on the operands, and C when the
-- wrapped difference exceeds the size.
pub sub_registers :
    (size : DataSize) (i j : RegisterType) (s : CpuState)
    → IsValid s.registers
    → i < 8
    → j < 8
    → (s' : CpuState) × (Sub.execute (registers size i j) s ≡ (ok tt, s'))
      × Stores size j
          (Registers.get s.registers i size)
          (Registers.get s.registers j size)
          (sub32 (Registers.get s.registers j size) (Registers.get s.registers i size))
          s
          s'
sub_registers size i j s v hi hj = (
  _,
  sub_run size i j s,
  rw (operand-data size i s v hi, operand-data size j s v hj)
      (after_past size j (Registers.get s.registers i size) (Registers.get s.registers j size)
        (sub32 (Registers.get s.registers j size) (Registers.get s.registers i size)) s v hj),
)
