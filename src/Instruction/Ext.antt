-- ===== src/Instruction/Ext.antt =====
-- src/instructions/ext.cpp. Both forms go through int8_t.
use m68k_emu.Base.{ℕ, ⊤, true, truth, if◌then◌else◌, sext8, u16}
use m68k_emu.Defines.{DataSize, byte, word, long, direct_data}
use m68k_emu.CpuState.{Action, ◌>>=◌, ◌>>◌}
use m68k_emu.CpuState.Operands.{get_data}
use m68k_emu.CpuState.Store.{set_data}
use m68k_emu.Instruction.{get_register_type}
use m68k_emu.Instruction.Class.{Instruction, ext, Ext}
use m68k_emu.Instruction.Common.{part1, part3, advance, set_logic_flags}
use m68k_emu.Base.{◌++◌}
use m68k_emu.Base.Text.{Text, codes}
use m68k_emu.Disassembler.{size_suffix, one_operand}

unfoldable pub create : ℕ → Instruction
create opcode = record {
  is_valid = true;
  class = ext (record {
    addr_mode = direct_data;
    addr_reg = get_register_type 0 (part3 opcode 0);
    data_size = if truth (part1 opcode 6) then long else word;
  });
}

abbrev read_size : DataSize → DataSize
read_size word = byte
read_size byte = word
read_size long = word

abbrev extended : DataSize → ℕ → ℕ
extended word read = u16 (sext8 read)
extended byte read = sext8 read
extended long read = sext8 read

unfoldable pub execute : Ext → Action ⊤
execute f = do
  advance
  read ← get_data f.addr_mode f.addr_reg (read_size f.data_size)
  let result = extended f.data_size read
  set_data f.addr_mode f.addr_reg f.data_size result
  set_logic_flags result f.data_size

unfoldable pub disassembly : Ext → Action Text
disassembly f = do
  advance
  one_operand (codes "ext" ++ size_suffix f.data_size) f.addr_mode f.addr_reg f.data_size
