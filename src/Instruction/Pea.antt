-- ===== src/Instruction/Pea.antt =====
-- src/instructions/pea.cpp.
use m68k_emu.Base.{ℕ, ⊤}
use m68k_emu.Defines.{long}
use m68k_emu.Helpers.{is_control_addr}
use m68k_emu.CpuState.{Action, ◌>>=◌, ◌>>◌, stack_push}
use m68k_emu.CpuState.Operands.{get_control_address}
use m68k_emu.Instruction.{get_addressing_mode, get_register_type}
use m68k_emu.Instruction.Class.{Instruction, pea, Pea}
use m68k_emu.Instruction.Common.{part3, advance}
use m68k_emu.Base.Text.{Text, codes}
use m68k_emu.Disassembler.{one_operand}

unfoldable pub create : ℕ → Instruction
create opcode =
    let addr_mode = get_addressing_mode (part3 opcode 3) (part3 opcode 0) in
    record {
      is_valid = is_control_addr addr_mode;
      class = pea (record {
        addr_mode = addr_mode;
        addr_reg = get_register_type (part3 opcode 3) (part3 opcode 0);
        data_size = long;
      });
    }

unfoldable pub execute : Pea → Action ⊤
execute f = do
  advance
  addr ← get_control_address f.addr_mode f.addr_reg f.data_size
  stack_push long addr

unfoldable pub disassembly : Pea → Action Text
disassembly f = do advance; one_operand (codes "pea ") f.addr_mode f.addr_reg f.data_size
