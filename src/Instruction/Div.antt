-- ===== src/Instruction/Div.antt =====
-- src/instructions/div.cpp. Division by zero has no defined result in C++. The signed quotient is
-- cut towards zero, and the remainder has the sign of the dividend.
use m68k_emu.Base.{
  ℕ, ⊤, Bool, true, false, not, xor, ◌-◌, ◌/◌, ◌%◌, bit_or, ◌<<<◌, ◌==◌, ltb, truth, if◌then◌else◌,
  u16, u32,
}
use m68k_emu.Defines.{
  word, long, direct_data, flag_carry, flag_overflow, flag_zero, flag_negative, undefined,
}
use m68k_emu.Helpers.{is_negative, is_zero, mask_16}
use m68k_emu.CpuState.{Action, pure, throw, set_flag, ◌>>=◌, ◌>>◌}
use m68k_emu.CpuState.Operands.{get_data}
use m68k_emu.CpuState.Silent.{get_data_silent}
use m68k_emu.CpuState.Store.{set_data}
use m68k_emu.Instruction.{get_addressing_mode, get_register_type}
use m68k_emu.Instruction.Class.{Instruction, div, Div}
use m68k_emu.Instruction.Common.{part1, part3, advance}
use m68k_emu.Base.{◌++◌}
use m68k_emu.Base.Text.{Text, codes}
use m68k_emu.Disassembler.{size_suffix, two_operands_text}

unfoldable pub create : ℕ → Instruction
create opcode = record {
  is_valid = true;
  class = div (record {
    is_signed = truth (part1 opcode 8);
    dest_mode = direct_data;
    dest_reg = get_register_type 0 (part3 opcode 9);
    src_mode = get_addressing_mode (part3 opcode 3) (part3 opcode 0);
    src_reg = get_register_type (part3 opcode 3) (part3 opcode 0);
    data_size = word;
  });
}

-- An int16_t pattern as a sign and a magnitude.
abbrev pub is_minus : ℕ → Bool
is_minus x = not (ltb x 0x8000)

abbrev pub magnitude : ℕ → ℕ
magnitude x = if is_minus x then 0x1_0000 - x else x

abbrev pub signed : Bool → ℕ → ℕ
signed minus x = if minus then u16 (0x1_0000 - x) else u16 x

-- The quotient in the low word, the remainder in the high one.
unfoldable pub quotient : Bool → ℕ → ℕ → ℕ
quotient true dest_data src_data =
    let q =
      signed (xor (is_minus dest_data) (is_minus src_data))
        (magnitude dest_data / magnitude src_data) in
    let r = signed (is_minus dest_data) (magnitude dest_data % magnitude src_data) in
    bit_or q (u32 (r <<< 16))
quotient false dest_data src_data =
    bit_or (dest_data / src_data) (u32 ((dest_data % src_data) <<< 16))

unfoldable pub divide : Bool → ℕ → ℕ → Action ℕ
divide is_signed dest_data src_data =
    if src_data == 0 then throw undefined else pure (quotient is_signed dest_data src_data)

unfoldable pub execute : Div → Action ⊤
execute f = do
  advance
  src ← get_data f.src_mode f.src_reg f.data_size
  dest ← get_data_silent f.dest_mode f.dest_reg f.data_size
  result ← divide f.is_signed (u16 dest) (u16 src)
  set_data f.dest_mode f.dest_reg long result
  set_flag flag_negative (is_negative (mask_16 result) word)
  set_flag flag_zero (is_zero (mask_16 result) word)
  set_flag flag_overflow false
  set_flag flag_carry false

unfoldable pub disassembly : Div → Action Text
disassembly f = do
  advance
  two_operands_text
      ((if f.is_signed then codes "mivs" else codes "divu") ++ size_suffix f.data_size) f.src_mode
      f.src_reg f.dest_mode f.dest_reg f.data_size
