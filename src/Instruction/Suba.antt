-- ===== src/Instruction/Suba.antt =====
-- src/instructions/suba.cpp. No flag changes.
use m68k_emu.Base.{ℕ, ⊤, true, sub32}
use m68k_emu.CpuState.{Action, ◌>>=◌, ◌>>◌}
use m68k_emu.CpuState.Operands.{get_data}
use m68k_emu.CpuState.Silent.{get_data_silent}
use m68k_emu.CpuState.Store.{set_data}
use m68k_emu.Instruction.Class.{Instruction, suba, Suba}
use m68k_emu.Instruction.Common.{address_operands, advance}
use m68k_emu.Base.{◌++◌}
use m68k_emu.Base.Text.{Text, codes}
use m68k_emu.Disassembler.{size_suffix, two_operands_text}

unfoldable pub create : ℕ → Instruction
create opcode = record { is_valid = true; class = suba (address_operands opcode) }

unfoldable pub execute : Suba → Action ⊤
execute f = do
  advance
  src_data ← get_data f.src_mode f.src_reg f.data_size
  dest_data ← get_data_silent f.dest_mode f.dest_reg f.data_size
  set_data f.dest_mode f.dest_reg f.data_size (sub32 dest_data src_data)

unfoldable pub disassembly : Suba → Action Text
disassembly f = do
  advance
  two_operands_text (codes "suba" ++ size_suffix f.data_size) f.src_mode f.src_reg f.dest_mode
      f.dest_reg f.data_size
