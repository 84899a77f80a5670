-- ===== src/Instruction/Nop.antt =====
-- src/instructions/nop.cpp.
use m68k_emu.Base.{ℕ, ⊤, true}
use m68k_emu.CpuState.{Action, pure, ◌>>◌}
use m68k_emu.Instruction.Class.{Instruction, nop}
use m68k_emu.Instruction.Common.{advance}
use m68k_emu.Base.Text.{Text, codes}

unfoldable pub create : ℕ → Instruction
create opcode = record { is_valid = true; class = nop }

unfoldable pub execute : Action ⊤
execute = do advance; pure tt

unfoldable pub disassembly : Action Text
disassembly = do advance; pure (codes "nop")
