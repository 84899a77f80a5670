-- ===== src/Instruction/Cmpa.antt =====
-- src/instructions/cmpa.cpp.
use m68k_emu.Base.{ℕ, ⊤, true, sub32, sext16}
use m68k_emu.Defines.{DataSize, byte, word, long}
use m68k_emu.CpuState.{Action, ◌>>=◌, ◌>>◌}
use m68k_emu.CpuState.Operands.{get_data}
use m68k_emu.Instruction.Class.{Instruction, cmpa, Cmpa}
use m68k_emu.Instruction.Common.{address_operands, advance, set_compare_flags}
use m68k_emu.Base.{◌++◌}
use m68k_emu.Base.Text.{Text, codes}
use m68k_emu.Disassembler.{size_suffix, two_operands_text}

unfoldable pub create : ℕ → Instruction
create opcode = record { is_valid = true; class = cmpa (address_operands opcode) }

-- A word is sign-extended.
abbrev pub extended : DataSize → ℕ → ℕ
extended word read = sext16 read
extended byte read = read
extended long read = read

unfoldable pub execute : Cmpa → Action ⊤
execute f = do
  advance
  read ← get_data f.src_mode f.src_reg f.data_size
  let src_data = extended f.data_size read
  dest_data ← get_data f.dest_mode f.dest_reg f.data_size
  set_compare_flags src_data dest_data (sub32 dest_data src_data) f.data_size

unfoldable pub disassembly : Cmpa → Action Text
disassembly f = do
  advance
  two_operands_text (codes "cmpa" ++ size_suffix f.data_size) f.src_mode f.src_reg f.dest_mode
      f.dest_reg f.data_size
