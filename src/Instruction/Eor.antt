-- ===== src/Instruction/Eor.antt =====
-- src/instructions/eor.cpp. Only the form whose destination is the effective address is valid; in
-- the other one the constructor leaves the operands at the defaults of include/instructions/eor.hpp.
use m68k_emu.Base.{ℕ, ⊤, false, ◌&&◌, bit_xor, truth, if◌then◌else◌}
use m68k_emu.Defines.{unknown, reg_d0}
use m68k_emu.Helpers.{is_memory_alterable}
use m68k_emu.CpuState.{Action, ◌>>=◌, ◌>>◌}
use m68k_emu.CpuState.Operands.{get_data}
use m68k_emu.CpuState.Silent.{get_data_silent}
use m68k_emu.CpuState.Store.{set_data}
use m68k_emu.Instruction.Class.{Instruction, Operands, eor, Eor}
use m68k_emu.Instruction.Common.{
  part1, part2, size_of_part, is_known, or_unset, two_operands, advance, set_logic_flags,
}
use m68k_emu.Base.{◌++◌}
use m68k_emu.Base.Text.{Text, codes}
use m68k_emu.Disassembler.{size_suffix, two_operands_text}

unfoldable pub eor_operands : ℕ → Operands
eor_operands opcode = if truth (part1 opcode 8) then two_operands opcode else record {
  dest_mode = unknown;
  dest_reg = reg_d0;
  src_mode = unknown;
  src_reg = reg_d0;
  data_size = or_unset (size_of_part (part2 opcode 6));
}

unfoldable pub create : ℕ → Instruction
create opcode = record {
  is_valid =
      (if truth (part1 opcode 8)
        then is_memory_alterable (eor_operands opcode).dest_mode
        else false)
      && is_known (size_of_part (part2 opcode 6));
  class = eor (eor_operands opcode);
}

unfoldable pub execute : Eor → Action ⊤
execute f = do
  advance
  src_data ← get_data f.src_mode f.src_reg f.data_size
  dest_data ← get_data_silent f.dest_mode f.dest_reg f.data_size
  let result = bit_xor dest_data src_data
  set_data f.dest_mode f.dest_reg f.data_size result
  set_logic_flags result f.data_size

unfoldable pub disassembly : Eor → Action Text
disassembly f = do
  advance
  two_operands_text (codes "eor" ++ size_suffix f.data_size) f.src_mode f.src_reg f.dest_mode
      f.dest_reg f.data_size
