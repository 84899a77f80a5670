-- ===== src/Instruction/Rts.antt =====
-- src/instructions/rts.cpp. The incremented PC is computed and dropped.
use m68k_emu.Base.{ℕ, ⊤, true}
use m68k_emu.Defines.{long, reg_pc}
use m68k_emu.CpuState.{Action, set_register, ◌>>=◌, stack_pop}
use m68k_emu.Instruction.Class.{Instruction, rts}
use m68k_emu.Base.Text.{Text, codes}
use m68k_emu.CpuState.{◌>>◌, pure}
use m68k_emu.Instruction.Common.{advance}

unfoldable pub create : ℕ → Instruction
create opcode = record { is_valid = true; class = rts }

unfoldable pub execute : Action ⊤
execute = do return_addr ← stack_pop long; set_register reg_pc long return_addr

unfoldable pub disassembly : Action Text
disassembly = do advance; pure (codes "rts")
