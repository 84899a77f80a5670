-- ===== src/Instruction/Mul.antt =====
-- src/instructions/mul.cpp. The product of two uint16_t is taken in `int`; past the range of `int` it
-- has no defined value.
use m68k_emu.Base.{ℕ, ⊤, Bool, true, false, ◌*◌, ltb, truth, sext16, u16, u32}
use m68k_emu.Defines.{word, long, direct_data, Result, ok, err, undefined}
use m68k_emu.CpuState.{Action, lift, ◌>>=◌, ◌>>◌}
use m68k_emu.CpuState.Operands.{get_data}
use m68k_emu.CpuState.Silent.{get_data_silent}
use m68k_emu.CpuState.Store.{set_data}
use m68k_emu.Instruction.{get_addressing_mode, get_register_type}
use m68k_emu.Instruction.Class.{Instruction, mul, Mul}
use m68k_emu.Instruction.Common.{part1, part3, advance, set_logic_flags}
use m68k_emu.Base.{◌++◌, if◌then◌else◌}
use m68k_emu.Base.Text.{Text, codes}
use m68k_emu.Disassembler.{size_suffix, two_operands_text}

unfoldable pub create : ℕ → Instruction
create opcode = record {
  is_valid = true;
  class = mul (record {
    is_signed = truth (part1 opcode 8);
    dest_mode = direct_data;
    dest_reg = get_register_type 0 (part3 opcode 9);
    src_mode = get_addressing_mode (part3 opcode 3) (part3 opcode 0);
    src_reg = get_register_type (part3 opcode 3) (part3 opcode 0);
    data_size = word;
  });
}

unfoldable pub product : Bool → ℕ → ℕ → Result ℕ
product true src_data dest_data = ok (u32 (sext16 src_data * sext16 dest_data))
product false src_data dest_data =
    if ltb (src_data * dest_data) 0x8000_0000 then ok (src_data * dest_data) else err undefined

unfoldable pub execute : Mul → Action ⊤
execute f = do
  advance
  src ← get_data f.src_mode f.src_reg f.data_size
  dest ← get_data_silent f.dest_mode f.dest_reg f.data_size
  result ← lift (product f.is_signed (u16 src) (u16 dest))
  set_data f.dest_mode f.dest_reg long result
  set_logic_flags result long

unfoldable pub disassembly : Mul → Action Text
disassembly f = do
  advance
  two_operands_text
      ((if f.is_signed then codes "muls" else codes "mulu") ++ size_suffix f.data_size) f.src_mode
      f.src_reg f.dest_mode f.dest_reg f.data_size
