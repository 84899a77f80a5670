-- ===== src/Instruction/Ori.antt =====
-- src/instructions/ori.cpp.
use m68k_emu.Base.{ℕ, ⊤, bit_or}
use m68k_emu.Defines.{immediate, reg_d0}
use m68k_emu.CpuState.{Action, ◌>>=◌, ◌>>◌}
use m68k_emu.CpuState.Operands.{get_data}
use m68k_emu.CpuState.Silent.{get_data_silent}
use m68k_emu.CpuState.Store.{set_data}
use m68k_emu.Instruction.Class.{Instruction, ori, Ori}
use m68k_emu.Instruction.Common.{dest_operand, dest_operand_valid, advance, set_logic_flags}
use m68k_emu.Base.{◌++◌}
use m68k_emu.Base.Text.{Text, codes}
use m68k_emu.Disassembler.{size_suffix, two_operands_text}

unfoldable pub create : ℕ → Instruction
create opcode = record { is_valid = dest_operand_valid opcode; class = ori (dest_operand opcode) }

unfoldable pub execute : Ori → Action ⊤
execute f = do
  advance
  src_data ← get_data immediate reg_d0 f.data_size
  dest_data ← get_data_silent f.dest_mode f.dest_reg f.data_size
  let result = bit_or dest_data src_data
  set_data f.dest_mode f.dest_reg f.data_size result
  set_logic_flags result f.data_size

unfoldable pub disassembly : Ori → Action Text
disassembly f = do
  advance
  two_operands_text (codes "ori" ++ size_suffix f.data_size) immediate reg_d0 f.dest_mode f.dest_reg
      f.data_size
