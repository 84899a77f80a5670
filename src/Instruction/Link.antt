-- ===== src/Instruction/Link.antt =====
-- src/instructions/link.cpp. PC moves only after the displacement has been read.
use m68k_emu.Base.{ℕ, ⊤, true, add32, sext16}
use m68k_emu.Defines.{word, long, bytes, reg_pc, reg_usp}
use m68k_emu.CpuState.{Action, get_register, set_register, get_memory, ◌>>=◌, ◌>>◌, stack_push}
use m68k_emu.Instruction.{get_register_type}
use m68k_emu.Instruction.Class.{Instruction, link, Link}
use m68k_emu.Instruction.Common.{part3}
use m68k_emu.Base.{◌++◌, u16}
use m68k_emu.Base.Text.{Text, codes, hex}
use m68k_emu.Disassembler.{reg}
use m68k_emu.CpuState.{pure}

unfoldable pub create : ℕ → Instruction
create opcode = record { is_valid = true; class = link (get_register_type 1 (part3 opcode 0)) }

unfoldable pub execute : Link → Action ⊤
execute addr_reg = do
  old ← get_register reg_pc long
  let pc = add32 old (bytes word)
  displacement ← get_memory pc word
  set_register reg_pc long (add32 pc (bytes word))
  addr_data ← get_register addr_reg long
  stack_push long addr_data
  stack_ptr ← get_register reg_usp long
  set_register addr_reg long stack_ptr
  set_register reg_usp long (add32 stack_ptr (sext16 displacement))

unfoldable pub disassembly : Link → Action Text
disassembly addr_reg = do
  old ← get_register reg_pc long
  let pc = add32 old (bytes word)
  displacement ← get_memory pc word
  set_register reg_pc long (add32 pc (bytes word))
  pure (codes "link " ++ (reg addr_reg ++ (codes ", $" ++ hex (u16 displacement))))
