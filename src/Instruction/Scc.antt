-- ===== src/Instruction/Scc.antt =====
-- src/instructions/scc.cpp.
use m68k_emu.Base.{ℕ, ⊤, bit_and, ◌>>>◌, if◌then◌else◌}
use m68k_emu.Defines.{byte}
use m68k_emu.Helpers.{is_data_alterable}
use m68k_emu.CpuState.{Action, ◌>>=◌, ◌>>◌, check_condition}
use m68k_emu.CpuState.Store.{set_data}
use m68k_emu.Instruction.{get_addressing_mode, get_register_type, get_condition}
use m68k_emu.Instruction.Class.{Instruction, Scc, scc}
use m68k_emu.Instruction.Common.{part3, advance}
use m68k_emu.Base.{◌++◌}
use m68k_emu.Base.Text.{Text, codes}
use m68k_emu.Disassembler.{condition_suffix, one_operand}

unfoldable pub create : ℕ → Instruction
create opcode =
    let dest_mode = get_addressing_mode (part3 opcode 3) (part3 opcode 0) in
    record {
      is_valid = is_data_alterable dest_mode;
      class = scc (record {
        dest_mode = dest_mode;
        dest_reg = get_register_type (part3 opcode 3) (part3 opcode 0);
        condition = get_condition (bit_and (opcode >>> 8) 0xf);
      });
    }

unfoldable pub execute : Scc → Action ⊤
execute f = do
  advance
  cond_result ← check_condition f.condition
  if cond_result
      then set_data f.dest_mode f.dest_reg byte 0xff
      else set_data f.dest_mode f.dest_reg byte 0x00

unfoldable pub disassembly : Scc → Action Text
disassembly f = do
  advance
  one_operand (codes "s" ++ (condition_suffix f.condition ++ codes " ")) f.dest_mode f.dest_reg byte
