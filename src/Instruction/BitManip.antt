-- ===== src/Instruction/BitManip.antt =====
-- src/instructions/bit_manip.cpp: Btst, Bchg, Bclr and Bset.
use m68k_emu.Base.{
  ℕ, ⊤, Bool, true, false, not, ◌-◌, ◌%◌, ◌^◌, bit_and, bit_or, ◌>>>◌, ◌==◌, truth, if◌then◌else◌,
  u32,
}
use m68k_emu.Defines.{byte, long, AddressingMode, direct_data, immediate, flag_zero}
use m68k_emu.Helpers.{is_data_alterable}
use m68k_emu.CpuState.{Action, set_flag, ◌>>=◌, ◌>>◌}
use m68k_emu.CpuState.Operands.{get_data}
use m68k_emu.CpuState.Silent.{get_data_silent}
use m68k_emu.CpuState.Store.{set_data}
use m68k_emu.Instruction.{get_addressing_mode, get_register_type}
use m68k_emu.Instruction.Class.{
  Instruction, BitManip, BitManipType, btst, bchg, bclr, bset, bit_manip,
}
use m68k_emu.Instruction.Common.{part1, part2, part3, advance}
use m68k_emu.Base.Text.{Text, codes}
use m68k_emu.Disassembler.{two_operands_text}

-- `static_cast<InstructionType>` at the numbers below 4.
abbrev cast_type : ℕ → BitManipType
cast_type n = if n == 0 then btst else if n == 1 then bchg else if n == 2 then bclr else bset

abbrev is_direct_data : AddressingMode → Bool
is_direct_data direct_data = true
is_direct_data _ = false

unfoldable pub create : ℕ → Instruction
create opcode =
    let dest_mode = get_addressing_mode (part3 opcode 3) (part3 opcode 0) in
    record {
      is_valid = is_data_alterable dest_mode;
      class = bit_manip (record {
        src_mode = if truth (part1 opcode 8) then direct_data else immediate;
        src_reg = get_register_type 0 (part3 opcode 9);
        dest_mode = dest_mode;
        dest_reg = get_register_type (part3 opcode 3) (part3 opcode 0);
        instruction_type = cast_type (part2 opcode 6);
        data_bits_modulo = if is_direct_data dest_mode then 32 else 8;
        data_size = if is_direct_data dest_mode then long else byte;
      });
    }

-- `result & ~(1ull << shift)` and `result | (1ull << shift)` on uint64_t.
abbrev pub cleared : ℕ → ℕ → ℕ
cleared result shift = bit_and result (0xffff_ffff_ffff_ffff - 2 ^ shift)

abbrev pub with_bit : ℕ → ℕ → ℕ
with_bit result shift = bit_or result (2 ^ shift)

unfoldable pub manipulate : BitManipType → ℕ → ℕ → Bool → ℕ
manipulate btst result shift test_bit_value = result
manipulate bchg result shift test_bit_value =
    if test_bit_value then cleared result shift else with_bit result shift
manipulate bclr result shift test_bit_value = cleared result shift
manipulate bset result shift test_bit_value = with_bit result shift

unfoldable pub execute : BitManip → Action ⊤
execute f = do
  advance
  read ← get_data f.src_mode f.src_reg f.data_size
  let shift = read % f.data_bits_modulo
  dest_data ← get_data_silent f.dest_mode f.dest_reg f.data_size
  let test_bit_value = truth (bit_and (dest_data >>> shift) 0x1)
  let result = manipulate f.instruction_type dest_data shift test_bit_value
  set_data f.dest_mode f.dest_reg f.data_size (u32 result)
  set_flag flag_zero (not test_bit_value)

abbrev pub instruction_str : BitManipType → Text
instruction_str btst = codes "btst"
instruction_str bchg = codes "bchg"
instruction_str bclr = codes "bclr"
instruction_str bset = codes "bset"

unfoldable pub disassembly : BitManip → Action Text
disassembly f = do
  advance
  two_operands_text (instruction_str f.instruction_type) f.src_mode f.src_reg f.dest_mode f.dest_reg
      f.data_size
