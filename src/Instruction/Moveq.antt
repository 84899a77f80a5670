-- ===== src/Instruction/Moveq.antt =====
-- src/instructions/moveq.cpp. `imm_data` is a uint8_t, and so is the argument of `IS_NEGATIVE`.
use m68k_emu.Base.{ℕ, ⊤, true, false, bit_and, ◌==◌}
use m68k_emu.Defines.{long, direct_data, flag_carry, flag_overflow, flag_zero, flag_negative}
use m68k_emu.Helpers.{is_negative}
use m68k_emu.CpuState.{Action, set_flag, ◌>>◌}
use m68k_emu.CpuState.Store.{set_data}
use m68k_emu.Instruction.{get_register_type}
use m68k_emu.Instruction.Class.{Instruction, moveq, Moveq}
use m68k_emu.Instruction.Common.{part3, advance}
use m68k_emu.Base.Text.{Text, codes, hex}
use m68k_emu.Disassembler.{number_operand}

unfoldable pub create : ℕ → Instruction
create opcode = record {
  is_valid = true;
  class = moveq (record {
    dest_mode = direct_data;
    dest_reg = get_register_type 0 (part3 opcode 9);
    imm_data = bit_and opcode 0xff;
    data_size = long;
  });
}

unfoldable pub execute : Moveq → Action ⊤
execute f = do
  advance
  set_data f.dest_mode f.dest_reg f.data_size f.imm_data
  set_flag flag_negative (is_negative f.imm_data f.data_size)
  set_flag flag_zero (f.imm_data == 0)
  set_flag flag_overflow false
  set_flag flag_carry false

unfoldable pub disassembly : Moveq → Action Text
disassembly f = do
  advance
  number_operand (codes "moveq") (hex f.imm_data) f.dest_mode f.dest_reg f.data_size
