-- ===== src/Instruction/Bcc.antt =====
-- src/instructions/bcc.cpp: Bra, Bsr and the conditional branches.
use m68k_emu.Base.{ℕ, ⊤, true, bit_and, ◌>>>◌, ◌==◌, if◌then◌else◌, add32, sext8, sext16}
use m68k_emu.Defines.{
  DataSize, byte, word, long, immediate, reg_d0, reg_pc, Condition, cond_true, cond_false,
}
use m68k_emu.CpuState.{Action, pure, set_register, ◌>>=◌, ◌>>◌, stack_push, check_condition}
use m68k_emu.CpuState.Operands.{get_data}
use m68k_emu.Instruction.{get_condition}
use m68k_emu.Instruction.Class.{Instruction, Bcc, bcc}
use m68k_emu.Instruction.Common.{advance}
use m68k_emu.Base.{◌++◌}
use m68k_emu.Base.Text.{Text, codes, hex}
use m68k_emu.Disassembler.{condition_suffix}

unfoldable pub create : ℕ → Instruction
create opcode =
    let displacement_8 = bit_and opcode 0xff in
    record {
      is_valid = true;
      class = bcc (record {
        condition = get_condition (bit_and (opcode >>> 8) 0xf);
        displacement_8 = displacement_8;
        data_size =
            if displacement_8 == 0 then word else if displacement_8 == 0xff then long else byte;
      });
    }

unfoldable pub get_displacement : Bcc → DataSize → Action ℕ
get_displacement f byte = pure (sext8 f.displacement_8)
get_displacement f word = do read ← get_data immediate reg_d0 f.data_size; pure (sext16 read)
get_displacement f long = get_data immediate reg_d0 f.data_size

unfoldable pub branch : Condition → ℕ → ℕ → Action ⊤
branch cond_true pc displacement = set_register reg_pc long (add32 pc displacement)
branch cond_false pc displacement = do
  stack_push long pc
  set_register reg_pc long (add32 pc displacement)
branch condition pc displacement = do
  cond_result ← check_condition condition
  if cond_result then set_register reg_pc long (add32 pc displacement) else pure tt

unfoldable pub execute : Bcc → Action ⊤
execute f = do
  pc ← advance
  displacement ← get_displacement f f.data_size
  branch f.condition pc displacement

abbrev pub branch_name : Condition → Text
branch_name cond_true = codes "bra"
branch_name cond_false = codes "bsr"
branch_name condition = codes "b" ++ condition_suffix condition

unfoldable pub disassembly : Bcc → Action Text
disassembly f = do
  pc ← advance
  displacement ← get_displacement f f.data_size
  pure (branch_name f.condition ++ (codes " $" ++ hex (add32 pc displacement)))
