-- ===== src/Instruction/Tst.antt =====
-- src/instructions/tst.cpp.
use m68k_emu.Base.{ℕ, ⊤}
use m68k_emu.CpuState.{Action, ◌>>=◌, ◌>>◌}
use m68k_emu.CpuState.Operands.{get_data}
use m68k_emu.Instruction.{get_addressing_mode, get_register_type}
use m68k_emu.Instruction.Class.{Instruction, tst, Tst}
use m68k_emu.Instruction.Common.{
  part2, part3, size_of_part, is_known, or_unset, advance, set_logic_flags,
}
use m68k_emu.Base.Text.{Text, codes}
use m68k_emu.Disassembler.{one_operand}

unfoldable pub create : ℕ → Instruction
create opcode = record {
  is_valid = is_known (size_of_part (part2 opcode 6));
  class = tst (record {
    addr_mode = get_addressing_mode (part3 opcode 3) (part3 opcode 0);
    addr_reg = get_register_type (part3 opcode 3) (part3 opcode 0);
    data_size = or_unset (size_of_part (part2 opcode 6));
  });
}

unfoldable pub execute : Tst → Action ⊤
execute f = do
  advance
  ea_data ← get_data f.addr_mode f.addr_reg f.data_size
  set_logic_flags ea_data f.data_size

unfoldable pub disassembly : Tst → Action Text
disassembly f = do advance; one_operand (codes "tst ") f.addr_mode f.addr_reg f.data_size
