-- ===== src/Cpu/Atomic.antt =====
-- A step that throws leaves the memory as it was.
use m68k_emu.Base.{ℕ, ◌≡◌, ◌∙◌, refl, u16, none, ap, sym}
use m68k_emu.Defines.{DataSize, byte, Condition, cond_true, Error, Result, ok, err}
use m68k_emu.Memory.{BaseMemory}
use m68k_emu.CpuState.{CpuState}
use m68k_emu.CpuState.Keeps.{Keeps}
use m68k_emu.CpuState.Frame.{Holds, holds_rules}
use m68k_emu.CpuState.Atomic.{Atomic, Safe, safe_rules, atomic_rules}
use m68k_emu.Instruction.Common.{set_arithmetic_flags, set_logic_flags}
use m68k_emu.Instruction.Class.{
  Class, add, sub, and, or, eor, addx, subx, adda, suba, cmp, cmpa, addi, subi, andi, ori, eori,
  cmpi, clr, neg, jmp, jsr, addq, subq, moveq, mul, div, move, pea, ext, tst, lea, bcc, scc,
  bit_manip, bit_shift, link, unlk, rts, nop, illegal, Bcc,
}
use m68k_emu.Decoder.{entry}
use m68k_emu.Cpu.{execute, step}
use m68k_emu.Cpu.ReadOnly.{advance-Holds, set_compare_flags-Holds, shifted-Holds}
use m68k_emu.Cpu.Fetch.{dispatched, fetched, step_lem}
use m68k_emu.Instruction.Add
use m68k_emu.Instruction.Sub
use m68k_emu.Instruction.And
use m68k_emu.Instruction.Or
use m68k_emu.Instruction.Eor
use m68k_emu.Instruction.Addx
use m68k_emu.Instruction.Subx
use m68k_emu.Instruction.Adda
use m68k_emu.Instruction.Suba
use m68k_emu.Instruction.Cmp
use m68k_emu.Instruction.Cmpa
use m68k_emu.Instruction.Addi
use m68k_emu.Instruction.Subi
use m68k_emu.Instruction.Andi
use m68k_emu.Instruction.Ori
use m68k_emu.Instruction.Eori
use m68k_emu.Instruction.Cmpi
use m68k_emu.Instruction.Clr
use m68k_emu.Instruction.Neg
use m68k_emu.Instruction.Jmp
use m68k_emu.Instruction.Jsr
use m68k_emu.Instruction.Addq
use m68k_emu.Instruction.Subq
use m68k_emu.Instruction.Moveq
use m68k_emu.Instruction.Mul
use m68k_emu.Instruction.Div
use m68k_emu.Instruction.Move
use m68k_emu.Instruction.Pea
use m68k_emu.Instruction.Ext
use m68k_emu.Instruction.Tst
use m68k_emu.Instruction.Lea
use m68k_emu.Instruction.Bcc
use m68k_emu.Instruction.Scc
use m68k_emu.Instruction.BitManip
use m68k_emu.Instruction.BitShift
use m68k_emu.Instruction.Link
use m68k_emu.Instruction.Unlk
use m68k_emu.Instruction.Rts
use m68k_emu.Instruction.Nop
use m68k_emu.Instruction.Illegal

set_arithmetic_flags-Safe :
    (src_data dest_data result : ℕ) (size : DataSize)
    → Safe (set_arithmetic_flags src_data dest_data result size)
unfolding set_arithmetic_flags
set_arithmetic_flags-Safe src_data dest_data result size = search safe_rules depth 9

set_logic_flags-Safe : (result : ℕ) (size : DataSize) → Safe (set_logic_flags result size)
unfolding set_logic_flags
set_logic_flags-Safe result size = search safe_rules depth 9

ruleset rules = (
  atomic_rules, advance-Holds, set_arithmetic_flags-Safe, set_logic_flags-Safe,
  set_compare_flags-Holds,
)

get_displacement-Holds :
    {k : BaseMemory} (f : Bcc) (size : DataSize) → Keeps (Holds k) (Bcc.get_displacement f size)
unfolding Bcc.get_displacement
get_displacement-Holds f byte = search holds_rules
get_displacement-Holds f _ = search holds_rules

branch-Atomic :
    (condition : Condition) (pc displacement : ℕ) → Atomic (Bcc.branch condition pc displacement)
unfolding Bcc.branch
branch-Atomic cond_true pc displacement = search rules
branch-Atomic _ pc displacement = search rules

ruleset parts = (rules, get_displacement-Holds, branch-Atomic, shifted-Holds)

execute-Atomic : (c : Class) → Atomic (execute c)
unfolding execute Add.execute Sub.execute And.execute Or.execute Eor.execute Addx.execute
    Subx.execute Adda.execute Suba.execute Cmp.execute Cmpa.execute Addi.execute Subi.execute
    Andi.execute Ori.execute Eori.execute Cmpi.execute Clr.execute Neg.execute Jmp.execute
    Jsr.execute Addq.execute Subq.execute Moveq.execute Mul.execute Div.execute Move.execute
    Pea.execute Ext.execute Tst.execute Lea.execute Bcc.execute Scc.execute BitManip.execute
    BitShift.execute Link.execute Unlk.execute Rts.execute Nop.execute Illegal.execute Div.divide
    Move.move_to_address Move.move_data BitShift.shift_count
execute-Atomic (add f) = search parts depth 14
execute-Atomic (sub f) = search parts depth 14
execute-Atomic (and f) = search parts depth 14
execute-Atomic (or f) = search parts depth 14
execute-Atomic (eor f) = search parts depth 14
execute-Atomic (addx f) = search parts depth 14
execute-Atomic (subx f) = search parts depth 14
execute-Atomic (adda f) = search parts depth 14
execute-Atomic (suba f) = search parts depth 14
execute-Atomic (cmp f) = search parts depth 14
execute-Atomic (cmpa f) = search parts depth 14
execute-Atomic (addi f) = search parts depth 14
execute-Atomic (subi f) = search parts depth 14
execute-Atomic (andi f) = search parts depth 14
execute-Atomic (ori f) = search parts depth 14
execute-Atomic (eori f) = search parts depth 14
execute-Atomic (cmpi f) = search parts depth 14
execute-Atomic (clr f) = search parts depth 14
execute-Atomic (neg f) = search parts depth 14
execute-Atomic (jmp f) = search parts depth 14
execute-Atomic (jsr f) = search parts depth 14
execute-Atomic (addq f) = search parts depth 14
execute-Atomic (subq f) = search parts depth 14
execute-Atomic (moveq f) = search parts depth 14
execute-Atomic (mul f) = search parts depth 14
execute-Atomic (div f) = search parts depth 14
execute-Atomic (move f) = search parts depth 14
execute-Atomic (pea f) = search parts depth 14
execute-Atomic (ext f) = search parts depth 14
execute-Atomic (tst f) = search parts depth 14
execute-Atomic (lea f) = search parts depth 14
execute-Atomic (bcc f) = search parts depth 14
execute-Atomic (scc f) = search parts depth 14
execute-Atomic (bit_manip f) = search parts depth 14
execute-Atomic (bit_shift f) = search parts depth 14
execute-Atomic (link f) = search parts depth 14
execute-Atomic (unlk f) = search parts depth 14
execute-Atomic rts = search parts depth 14
execute-Atomic nop = search parts depth 14
execute-Atomic illegal = search parts depth 14

-- A step that throws, at the fetch, at an operand or at the store of a result, leaves the memory
-- exactly as it was: no instruction throws after it has stored something.
pub step_atomic : (s : CpuState) (e : Error) → (step s).0 ≡ err e → (step s).1.memory ≡ s.memory
step_atomic s e h =
    ap (λ r. r.1.memory) (step_lem s) ∙ kept (fetched s) (ap (λ r. r.0) (sym (step_lem s)) ∙ h)
  where
    kept : (r : Result ℕ) → (dispatched r s).0 ≡ err e → (dispatched r s).1.memory ≡ s.memory
    kept (ok opcode) k = (execute-Atomic (entry (u16 opcode) none).class).at s e k
    kept (err x) k = refl
