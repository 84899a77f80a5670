-- ===== src/Instruction/Jsr.antt =====
-- src/instructions/jsr.cpp.
use m68k_emu.Base.{ℕ, ⊤}
use m68k_emu.Defines.{long, reg_pc}
use m68k_emu.Helpers.{is_control_addr}
use m68k_emu.CpuState.{Action, get_register, set_register, ◌>>=◌, ◌>>◌, stack_push}
use m68k_emu.CpuState.Operands.{get_control_address}
use m68k_emu.Instruction.{get_addressing_mode, get_register_type}
use m68k_emu.Instruction.Class.{Instruction, jsr, Jsr}
use m68k_emu.Instruction.Common.{part3, advance}
use m68k_emu.Base.Text.{Text, codes}
use m68k_emu.Disassembler.{one_operand}

unfoldable pub create : ℕ → Instruction
create opcode =
    let dest_mode = get_addressing_mode (part3 opcode 3) (part3 opcode 0) in
    record {
      is_valid = is_control_addr dest_mode;
      class = jsr (record {
        dest_mode = dest_mode;
        dest_reg = get_register_type (part3 opcode 3) (part3 opcode 0);
        data_size = long;
      });
    }

unfoldable pub execute : Jsr → Action ⊤
execute f = do
  advance
  dest_addr ← get_control_address f.dest_mode f.dest_reg f.data_size
  pc ← get_register reg_pc long
  stack_push long pc
  set_register reg_pc long dest_addr

unfoldable pub disassembly : Jsr → Action Text
disassembly f = do advance; one_operand (codes "jsr ") f.dest_mode f.dest_reg f.data_size
