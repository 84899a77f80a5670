-- ===== src/Instruction/Lea.antt =====
-- src/instructions/lea.cpp.
use m68k_emu.Base.{ℕ, ⊤}
use m68k_emu.Defines.{long, direct_addr}
use m68k_emu.Helpers.{is_control_addr}
use m68k_emu.CpuState.{Action, ◌>>=◌, ◌>>◌}
use m68k_emu.CpuState.Operands.{get_control_address}
use m68k_emu.CpuState.Store.{set_data}
use m68k_emu.Instruction.{get_addressing_mode, get_register_type}
use m68k_emu.Instruction.Class.{Instruction, Lea, lea}
use m68k_emu.Instruction.Common.{part3, advance}
use m68k_emu.Base.Text.{Text, codes}
use m68k_emu.Disassembler.{two_operands_text}

unfoldable pub create : ℕ → Instruction
create opcode =
    let src_mode = get_addressing_mode (part3 opcode 3) (part3 opcode 0) in
    record {
      is_valid = is_control_addr src_mode;
      class = lea (record {
        src_mode = src_mode;
        src_reg = get_register_type (part3 opcode 3) (part3 opcode 0);
        addr_reg = get_register_type 1 (part3 opcode 9);
        data_size = long;
      });
    }

unfoldable pub execute : Lea → Action ⊤
execute f = do
  advance
  src_data ← get_control_address f.src_mode f.src_reg f.data_size
  set_data direct_addr f.addr_reg f.data_size src_data

unfoldable pub disassembly : Lea → Action Text
disassembly f = do
  advance
  two_operands_text (codes "lea") f.src_mode f.src_reg direct_addr f.addr_reg f.data_size
