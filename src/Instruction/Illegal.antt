-- ===== src/Instruction/Illegal.antt =====
-- src/instructions/illegal.cpp.
use m68k_emu.Base.{ℕ, ⊤, true}
use m68k_emu.Defines.{invalid_argument}
use m68k_emu.CpuState.{Action, throw, ◌>>◌}
use m68k_emu.Instruction.Class.{Instruction, illegal}
use m68k_emu.Instruction.Common.{advance}
use m68k_emu.Base.Text.{Text, codes}
use m68k_emu.CpuState.{pure}

unfoldable pub create : ℕ → Instruction
create opcode = record { is_valid = true; class = illegal }

unfoldable pub execute : Action ⊤
execute = do advance; throw invalid_argument

unfoldable pub disassembly : Action Text
disassembly = do advance; pure (codes "illegal")
