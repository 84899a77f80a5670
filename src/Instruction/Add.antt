-- ===== src/Instruction/Add.antt =====
-- src/instructions/add.cpp.
use m68k_emu.Base.{ℕ, ⊤, add32}
use m68k_emu.CpuState.{Action, ◌>>=◌, ◌>>◌}
use m68k_emu.CpuState.Operands.{get_data}
use m68k_emu.CpuState.Silent.{get_data_silent}
use m68k_emu.CpuState.Store.{set_data}
use m68k_emu.Instruction.Class.{Instruction, add, Add}
use m68k_emu.Instruction.Common.{two_operands, two_operands_valid, advance, set_arithmetic_flags}
use m68k_emu.Base.{◌++◌}
use m68k_emu.Base.Text.{Text, codes}
use m68k_emu.Disassembler.{size_suffix, two_operands_text}

unfoldable pub create : ℕ → Instruction
create opcode = record { is_valid = two_operands_valid opcode; class = add (two_operands opcode) }

unfoldable pub execute : Add → Action ⊤
execute f = do
  advance
  src_data ← get_data f.src_mode f.src_reg f.data_size
  dest_data ← get_data_silent f.dest_mode f.dest_reg f.data_size
  let result = add32 src_data dest_data
  set_data f.dest_mode f.dest_reg f.data_size result
  set_arithmetic_flags src_data dest_data result f.data_size

unfoldable pub disassembly : Add → Action Text
disassembly f = do
  advance
  two_operands_text (codes "add" ++ size_suffix f.data_size) f.src_mode f.src_reg f.dest_mode
      f.dest_reg f.data_size
