-- ===== src/Instruction/Neg.antt =====
-- src/instructions/neg.cpp.
use m68k_emu.Base.{ℕ, ⊤, sub32}
use m68k_emu.CpuState.{Action, ◌>>=◌, ◌>>◌}
use m68k_emu.CpuState.Silent.{get_data_silent}
use m68k_emu.CpuState.Store.{set_data}
use m68k_emu.Instruction.Class.{Instruction, neg, Neg}
use m68k_emu.Instruction.Common.{dest_operand, dest_operand_valid, advance, set_arithmetic_flags}
use m68k_emu.Base.Text.{Text, codes}
use m68k_emu.Disassembler.{one_operand}

unfoldable pub create : ℕ → Instruction
create opcode = record { is_valid = dest_operand_valid opcode; class = neg (dest_operand opcode) }

unfoldable pub execute : Neg → Action ⊤
execute f = do
  advance
  dest_data ← get_data_silent f.dest_mode f.dest_reg f.data_size
  let result = sub32 0 dest_data
  set_data f.dest_mode f.dest_reg f.data_size result
  set_arithmetic_flags 0 dest_data result f.data_size

unfoldable pub disassembly : Neg → Action Text
disassembly f = do advance; one_operand (codes "neg ") f.dest_mode f.dest_reg f.data_size
