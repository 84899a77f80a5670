-- ===== src/Cpu.antt =====
-- include/cpu.hpp and src/cpu.cpp: the dispatch to an instruction's `execute`, one step of the
-- machine, and runs of several steps. `load_elf` is in `Loader`.
pub mod Validity
pub mod ReadOnly
pub mod Disassembly
pub mod Length
pub mod Isolation
pub mod Atomic
pub mod Blindness
pub mod Definedness
pub mod Fetch
pub mod SingleSteps
pub mod Countdown
pub mod UnsignedBranch
pub mod SignedBranch
pub mod CopyByte
pub mod CopyRound
pub mod CopyLoop
use m68k_emu.Base.{ℕ, zero, suc, ⊤, u16}
use m68k_emu.Defines.{word, long, reg_pc, Result, ok, err}
use m68k_emu.CpuState.{CpuState, Action, pure, lift, get_register, get_memory, ◌>>=◌, ◌>>◌}
use m68k_emu.Decoder.{decode}
use m68k_emu.Instruction.Class.{
  Class, add, sub, and, or, eor, addx, subx, adda, suba, cmp, cmpa, addi, subi, andi, ori, eori,
  cmpi, clr, neg, jmp, jsr, addq, subq, moveq, mul, div, move, pea, ext, tst, lea, bcc, scc,
  bit_manip, bit_shift, link, unlk, rts, nop, illegal,
}
use m68k_emu.Instruction.Add
use m68k_emu.Instruction.Adda
use m68k_emu.Instruction.Addi
use m68k_emu.Instruction.Addq
use m68k_emu.Instruction.Addx
use m68k_emu.Instruction.And
use m68k_emu.Instruction.Andi
use m68k_emu.Instruction.Bcc
use m68k_emu.Instruction.BitManip
use m68k_emu.Instruction.BitShift
use m68k_emu.Instruction.Clr
use m68k_emu.Instruction.Cmp
use m68k_emu.Instruction.Cmpa
use m68k_emu.Instruction.Cmpi
use m68k_emu.Instruction.Div
use m68k_emu.Instruction.Eor
use m68k_emu.Instruction.Eori
use m68k_emu.Instruction.Ext
use m68k_emu.Instruction.Illegal
use m68k_emu.Instruction.Jmp
use m68k_emu.Instruction.Jsr
use m68k_emu.Instruction.Lea
use m68k_emu.Instruction.Link
use m68k_emu.Instruction.Move
use m68k_emu.Instruction.Moveq
use m68k_emu.Instruction.Mul
use m68k_emu.Instruction.Neg
use m68k_emu.Instruction.Nop
use m68k_emu.Instruction.Or
use m68k_emu.Instruction.Ori
use m68k_emu.Instruction.Pea
use m68k_emu.Instruction.Rts
use m68k_emu.Instruction.Scc
use m68k_emu.Instruction.Sub
use m68k_emu.Instruction.Suba
use m68k_emu.Instruction.Subi
use m68k_emu.Instruction.Subq
use m68k_emu.Instruction.Subx
use m68k_emu.Instruction.Tst
use m68k_emu.Instruction.Unlk

-- The virtual call `instruction->execute(state)`.
unfoldable pub execute : Class → Action ⊤
execute (add f) = Add.execute f
execute (sub f) = Sub.execute f
execute (and f) = And.execute f
execute (or f) = Or.execute f
execute (eor f) = Eor.execute f
execute (addx f) = Addx.execute f
execute (subx f) = Subx.execute f
execute (adda f) = Adda.execute f
execute (suba f) = Suba.execute f
execute (cmp f) = Cmp.execute f
execute (cmpa f) = Cmpa.execute f
execute (addi f) = Addi.execute f
execute (subi f) = Subi.execute f
execute (andi f) = Andi.execute f
execute (ori f) = Ori.execute f
execute (eori f) = Eori.execute f
execute (cmpi f) = Cmpi.execute f
execute (clr f) = Clr.execute f
execute (neg f) = Neg.execute f
execute (jmp f) = Jmp.execute f
execute (jsr f) = Jsr.execute f
execute (addq f) = Addq.execute f
execute (subq f) = Subq.execute f
execute (moveq f) = Moveq.execute f
execute (mul f) = Mul.execute f
execute (div f) = Div.execute f
execute (move f) = Move.execute f
execute (pea f) = Pea.execute f
execute (ext f) = Ext.execute f
execute (tst f) = Tst.execute f
execute (lea f) = Lea.execute f
execute (bcc f) = Bcc.execute f
execute (scc f) = Scc.execute f
execute (bit_manip f) = BitManip.execute f
execute (bit_shift f) = BitShift.execute f
execute (link f) = Link.execute f
execute (unlk f) = Unlk.execute f
execute rts = Rts.execute
execute nop = Nop.execute
execute illegal = Illegal.execute

unfoldable pub step : Action ⊤
step = do
  pc ← get_register reg_pc long
  opcode ← get_memory pc word
  instruction ← lift (decode (u16 opcode))
  execute instruction.class

-- `count` calls of `step`; the first throw ends the run.
unfoldable pub steps : ℕ → Action ⊤
steps zero = pure tt
steps (suc count) = step >> steps count
