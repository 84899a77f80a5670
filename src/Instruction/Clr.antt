-- ===== src/Instruction/Clr.antt =====
-- src/instructions/clr.cpp.
use m68k_emu.Base.{ℕ, ⊤, true, false}
use m68k_emu.Defines.{flag_carry, flag_overflow, flag_zero, flag_negative}
use m68k_emu.CpuState.{Action, set_flag, ◌>>◌}
use m68k_emu.CpuState.Store.{set_data}
use m68k_emu.Instruction.Class.{Instruction, clr, Clr}
use m68k_emu.Instruction.Common.{dest_operand, dest_operand_valid, advance}
use m68k_emu.Base.{◌++◌}
use m68k_emu.Base.Text.{Text, codes}
use m68k_emu.Disassembler.{size_suffix, one_operand}

unfoldable pub create : ℕ → Instruction
create opcode = record { is_valid = dest_operand_valid opcode; class = clr (dest_operand opcode) }

unfoldable pub execute : Clr → Action ⊤
execute f = do
  advance
  set_data f.dest_mode f.dest_reg f.data_size 0
  set_flag flag_negative false
  set_flag flag_zero true
  set_flag flag_overflow false
  set_flag flag_carry false

unfoldable pub disassembly : Clr → Action Text
disassembly f = do
  advance
  one_operand (codes "clr" ++ (size_suffix f.data_size ++ codes " ")) f.dest_mode f.dest_reg
      f.data_size
