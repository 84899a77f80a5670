-- ===== src/Instruction/Cmp.antt =====
-- src/instructions/cmp.cpp.
use m68k_emu.Base.{ℕ, ⊤, sub32}
use m68k_emu.Defines.{direct_data}
use m68k_emu.CpuState.{Action, ◌>>=◌, ◌>>◌}
use m68k_emu.CpuState.Operands.{get_data}
use m68k_emu.Instruction.{get_addressing_mode, get_register_type}
use m68k_emu.Instruction.Class.{Instruction, cmp, Cmp}
use m68k_emu.Instruction.Common.{
  part2, part3, size_of_part, is_known, or_unset, advance, set_compare_flags,
}
use m68k_emu.Base.{◌++◌}
use m68k_emu.Base.Text.{Text, codes}
use m68k_emu.Disassembler.{size_suffix, two_operands_text}

unfoldable pub create : ℕ → Instruction
create opcode = record {
  is_valid = is_known (size_of_part (part2 opcode 6));
  class = cmp (record {
    dest_mode = direct_data;
    dest_reg = get_register_type 0 (part3 opcode 9);
    src_mode = get_addressing_mode (part3 opcode 3) (part3 opcode 0);
    src_reg = get_register_type (part3 opcode 3) (part3 opcode 0);
    data_size = or_unset (size_of_part (part2 opcode 6));
  });
}

unfoldable pub execute : Cmp → Action ⊤
execute f = do
  advance
  src_data ← get_data f.src_mode f.src_reg f.data_size
  dest_data ← get_data f.dest_mode f.dest_reg f.data_size
  set_compare_flags src_data dest_data (sub32 dest_data src_data) f.data_size

unfoldable pub disassembly : Cmp → Action Text
disassembly f = do
  advance
  two_operands_text (codes "cmp" ++ size_suffix f.data_size) f.src_mode f.src_reg f.dest_mode
      f.dest_reg f.data_size
