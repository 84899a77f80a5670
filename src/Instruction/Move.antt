-- ===== src/Instruction/Move.antt =====
-- src/instructions/move.cpp.
use m68k_emu.Base.{
  ℕ, ⊤, Bool, true, false, not, Option, none, some, ◌&&◌, ◌||◌, ◌==◌, if◌then◌else◌, sext16,
}
use m68k_emu.Defines.{
  DataSize, byte, word, long, AddressingMode, direct_addr, immediate, unknown, pc_displacement,
  pc_index, flag_carry, flag_overflow, flag_zero, flag_negative,
}
use m68k_emu.Helpers.{is_memory_alterable, is_negative}
use m68k_emu.CpuState.{Action, set_flag, ◌>>=◌, ◌>>◌}
use m68k_emu.CpuState.Operands.{get_data}
use m68k_emu.CpuState.Store.{set_data}
use m68k_emu.Instruction.{get_addressing_mode, get_register_type}
use m68k_emu.Instruction.Class.{Instruction, Move, move}
use m68k_emu.Instruction.Common.{part2, part3, is_known, or_unset, advance}
use m68k_emu.Base.{◌++◌}
use m68k_emu.Base.Text.{Text, codes}
use m68k_emu.Disassembler.{size_suffix, two_operands_text}

-- `data_size_part` of a move has an order of its own.
abbrev size_of_move : ℕ → Option DataSize
size_of_move data_size_part =
    if data_size_part == 1
    then some byte
    else if data_size_part == 2
    then some long
    else if data_size_part == 3
    then some word
    else none

abbrev is_unknown : AddressingMode → Bool
is_unknown unknown = true
is_unknown _ = false

abbrev is_direct_addr : AddressingMode → Bool
is_direct_addr direct_addr = true
is_direct_addr _ = false

-- The destination modes that the second test refuses.
abbrev is_refused : AddressingMode → Bool
is_refused unknown = true
is_refused pc_displacement = true
is_refused pc_index = true
is_refused immediate = true
is_refused _ = false

abbrev is_byte_size : Option DataSize → Bool
is_byte_size (some byte) = true
is_byte_size _ = false

unfoldable pub create : ℕ → Instruction
create opcode =
    let dest_mode = get_addressing_mode (part3 opcode 6) (part3 opcode 9) in
    let src_mode = get_addressing_mode (part3 opcode 3) (part3 opcode 0) in
    let size = size_of_move (part2 opcode 12) in
    record {
      is_valid =
          not (is_unknown src_mode || not (is_memory_alterable dest_mode))
          && not (is_unknown src_mode || is_refused dest_mode)
          && is_known size
          && not (is_direct_addr dest_mode && is_byte_size size);
      class = move (record {
        dest_mode = dest_mode;
        dest_reg = get_register_type (part3 opcode 6) (part3 opcode 9);
        src_mode = src_mode;
        src_reg = get_register_type (part3 opcode 3) (part3 opcode 0);
        data_size = or_unset size;
        is_movea = is_direct_addr dest_mode;
      });
    }

-- A word for an address register is sign-extended.
abbrev extended : DataSize → ℕ → ℕ
extended word read = sext16 read
extended byte read = read
extended long read = read

unfoldable pub move_to_address : Move → ℕ → Action ⊤
move_to_address f src_data = set_data f.dest_mode f.dest_reg long (extended f.data_size src_data)

unfoldable pub move_data : Move → ℕ → Action ⊤
move_data f src_data = do
  set_data f.dest_mode f.dest_reg f.data_size src_data
  set_flag flag_negative (is_negative src_data f.data_size)
  set_flag flag_zero (src_data == 0)
  set_flag flag_overflow false
  set_flag flag_carry false

unfoldable pub execute : Move → Action ⊤
execute f = do
  advance
  src_data ← get_data f.src_mode f.src_reg f.data_size
  if f.is_movea then move_to_address f src_data else move_data f src_data

unfoldable pub disassembly : Move → Action Text
disassembly f = do
  advance
  two_operands_text
      ((if f.is_movea then codes "movea" else codes "move") ++ size_suffix f.data_size) f.src_mode
      f.src_reg f.dest_mode f.dest_reg f.data_size
