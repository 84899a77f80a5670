-- ===== src/Instruction/Unlk.antt =====
-- src/instructions/unlk.cpp.
use m68k_emu.Base.{ℕ, ⊤, true}
use m68k_emu.Defines.{long, reg_usp}
use m68k_emu.CpuState.{Action, get_register, set_register, ◌>>=◌, ◌>>◌, stack_pop}
use m68k_emu.Instruction.{get_register_type}
use m68k_emu.Instruction.Class.{Instruction, unlk, Unlk}
use m68k_emu.Instruction.Common.{part3, advance}
use m68k_emu.Base.{◌++◌}
use m68k_emu.Base.Text.{Text, codes}
use m68k_emu.Disassembler.{reg}
use m68k_emu.CpuState.{pure}

unfoldable pub create : ℕ → Instruction
create opcode = record { is_valid = true; class = unlk (get_register_type 1 (part3 opcode 0)) }

unfoldable pub execute : Unlk → Action ⊤
execute addr_reg = do
  advance
  addr_data ← get_register addr_reg long
  set_register reg_usp long addr_data
  popped ← stack_pop long
  set_register addr_reg long popped

unfoldable pub disassembly : Unlk → Action Text
disassembly addr_reg = do advance; pure (codes "unlk " ++ reg addr_reg)
