-- ===== src/Instruction/Subi.antt =====
-- src/instructions/subi.cpp.
use m68k_emu.Base.{ℕ, ⊤, sub32}
use m68k_emu.Defines.{immediate, reg_d0}
use m68k_emu.CpuState.{Action, ◌>>=◌, ◌>>◌}
use m68k_emu.CpuState.Operands.{get_data}
use m68k_emu.CpuState.Silent.{get_data_silent}
use m68k_emu.CpuState.Store.{set_data}
use m68k_emu.Instruction.Class.{Instruction, subi, Subi}
use m68k_emu.Instruction.Common.{dest_operand, dest_operand_valid, advance, set_arithmetic_flags}
use m68k_emu.Base.{◌++◌}
use m68k_emu.Base.Text.{Text, codes}
use m68k_emu.Disassembler.{size_suffix, two_operands_text}

unfoldable pub create : ℕ → Instruction
create opcode = record { is_valid = dest_operand_valid opcode; class = subi (dest_operand opcode) }

unfoldable pub execute : Subi → Action ⊤
execute f = do
  advance
  src_data ← get_data immediate reg_d0 f.data_size
  dest_data ← get_data_silent f.dest_mode f.dest_reg f.data_size
  let result = sub32 dest_data src_data
  set_data f.dest_mode f.dest_reg f.data_size result
  set_arithmetic_flags src_data dest_data result f.data_size

unfoldable pub disassembly : Subi → Action Text
disassembly f = do
  advance
  two_operands_text (codes "subi" ++ size_suffix f.data_size) immediate reg_d0 f.dest_mode
      f.dest_reg f.data_size
