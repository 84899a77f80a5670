-- ===== src/Instruction/Addx.antt =====
-- src/instructions/addx.cpp.
use m68k_emu.Base.{ℕ, ⊤, false, ◌==◌, if◌then◌else◌, add32}
use m68k_emu.Defines.{
  AddressingMode, direct_data, indirect_predecrement, flag_carry, flag_overflow, flag_zero,
  flag_negative, flag_extend,
}
use m68k_emu.Helpers.{is_negative, is_zero, is_overflow, is_carry}
use m68k_emu.CpuState.{Action, pure, get_flag, set_flag, ◌>>=◌, ◌>>◌}
use m68k_emu.CpuState.Operands.{get_data}
use m68k_emu.CpuState.Silent.{get_data_silent}
use m68k_emu.CpuState.Store.{set_data}
use m68k_emu.Instruction.{get_register_type}
use m68k_emu.Instruction.Class.{Instruction, addx, Addx}
use m68k_emu.Instruction.Common.{part1, part2, part3, size_of_part, is_known, or_unset, advance}
use m68k_emu.Base.{◌++◌}
use m68k_emu.Base.Text.{Text, codes}
use m68k_emu.Disassembler.{size_suffix, two_operands_text}

-- The mode of both operands: data registers, or memory below address registers.
abbrev operand_mode : ℕ → AddressingMode
operand_mode opcode = if part1 opcode 3 == 0 then direct_data else indirect_predecrement

unfoldable pub create : ℕ → Instruction
create opcode = record {
  is_valid = is_known (size_of_part (part2 opcode 6));
  class = addx (record {
    dest_mode = operand_mode opcode;
    dest_reg = get_register_type (part1 opcode 3) (part3 opcode 9);
    src_mode = operand_mode opcode;
    src_reg = get_register_type (part1 opcode 3) (part3 opcode 0);
    data_size = or_unset (size_of_part (part2 opcode 6));
  });
}

unfoldable pub execute : Addx → Action ⊤
execute f = do
  advance
  extend ← get_flag flag_extend
  let extend_data = if extend then 1 else 0
  src_data ← get_data f.src_mode f.src_reg f.data_size
  dest_data ← get_data_silent f.dest_mode f.dest_reg f.data_size
  let result = add32 (add32 src_data dest_data) extend_data
  set_data f.dest_mode f.dest_reg f.data_size result
  (if is_zero result f.data_size then pure tt else set_flag flag_zero false)
  set_flag flag_extend (is_carry result f.data_size)
  set_flag flag_negative (is_negative result f.data_size)
  set_flag flag_overflow (is_overflow src_data dest_data f.data_size)
  set_flag flag_carry (is_carry result f.data_size)

unfoldable pub disassembly : Addx → Action Text
disassembly f = do
  advance
  two_operands_text (codes "addx" ++ size_suffix f.data_size) f.src_mode f.src_reg f.dest_mode
      f.dest_reg f.data_size
