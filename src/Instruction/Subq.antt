-- ===== src/Instruction/Subq.antt =====
-- src/instructions/subq.cpp.
use m68k_emu.Base.{ℕ, ⊤, Bool, true, false, ◌==◌, if◌then◌else◌, sub32}
use m68k_emu.Defines.{AddressingMode, direct_addr}
use m68k_emu.CpuState.{Action, pure, ◌>>=◌, ◌>>◌}
use m68k_emu.CpuState.Silent.{get_data_silent}
use m68k_emu.CpuState.Store.{set_data}
use m68k_emu.Instruction.Class.{Instruction, subq, Subq}
use m68k_emu.Instruction.Common.{
  part3, dest_operand, dest_operand_valid, advance, set_arithmetic_flags,
}
use m68k_emu.Base.{◌++◌}
use m68k_emu.Base.Text.{Text, codes, hex}
use m68k_emu.Disassembler.{size_suffix, number_operand}

unfoldable pub create : ℕ → Instruction
create opcode = record {
  is_valid = dest_operand_valid opcode;
  class = subq (record {
    dest_mode = (dest_operand opcode).dest_mode;
    dest_reg = (dest_operand opcode).dest_reg;
    imm_data = if part3 opcode 9 == 0 then 8 else part3 opcode 9;
    data_size = (dest_operand opcode).data_size;
  });
}

-- `this->dest_mode != ADDR_MODE_DIRECT_ADDR`
abbrev sets_flags : AddressingMode → Bool
sets_flags direct_addr = false
sets_flags _ = true

unfoldable pub execute : Subq → Action ⊤
execute f = do
  advance
  let src_data = f.imm_data
  dest_data ← get_data_silent f.dest_mode f.dest_reg f.data_size
  let result = sub32 dest_data src_data
  set_data f.dest_mode f.dest_reg f.data_size result
  if sets_flags f.dest_mode
      then set_arithmetic_flags src_data dest_data result f.data_size
      else pure tt

unfoldable pub disassembly : Subq → Action Text
disassembly f = do
  advance
  number_operand (codes "subq" ++ size_suffix f.data_size) (hex f.imm_data) f.dest_mode f.dest_reg
      f.data_size
