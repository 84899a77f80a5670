-- ===== src/Instruction/Cmpi.antt =====
-- src/instructions/cmpi.cpp.
use m68k_emu.Base.{ℕ, ⊤, sub32}
use m68k_emu.Defines.{immediate, reg_d0}
use m68k_emu.CpuState.{Action, ◌>>=◌, ◌>>◌}
use m68k_emu.CpuState.Operands.{get_data}
use m68k_emu.Instruction.Class.{Instruction, cmpi, Cmpi}
use m68k_emu.Instruction.Common.{dest_operand, dest_operand_valid, advance, set_compare_flags}
use m68k_emu.Base.{◌++◌}
use m68k_emu.Base.Text.{Text, codes}
use m68k_emu.Disassembler.{size_suffix, two_operands_text}

unfoldable pub create : ℕ → Instruction
create opcode = record { is_valid = dest_operand_valid opcode; class = cmpi (dest_operand opcode) }

unfoldable pub execute : Cmpi → Action ⊤
execute f = do
  advance
  src_data ← get_data immediate reg_d0 f.data_size
  dest_data ← get_data f.dest_mode f.dest_reg f.data_size
  set_compare_flags src_data dest_data (sub32 dest_data src_data) f.data_size

unfoldable pub disassembly : Cmpi → Action Text
disassembly f = do
  advance
  two_operands_text (codes "cmpi" ++ size_suffix f.data_size) immediate reg_d0 f.dest_mode
      f.dest_reg f.data_size
