-- ===== src/Cpu/Definedness.antt =====
-- Which instructions can meet an operation to which C++ gives no meaning.
use m68k_emu.Base.{
  ◌≢◌, ℕ, ◌≡◌, ◌∙◌, Bool, true, false, not, ◌&&◌, refl, u16, none, ap, sym, Bool-cases, inl, inr,
}
use m68k_emu.Defines.{
  DataSize, byte, Condition, cond_true, invalid_argument, undefined, Result, ok, err,
}
use m68k_emu.CpuState.{CpuState, throw, pure}
use m68k_emu.CpuState.Definedness.{
  is_indexed, Defined, Defined-throw, Defined-bind, Defined-bind_pure, defined_rules, get-defined,
}
use m68k_emu.Instruction.Class.{BitShift}
use m68k_emu.Instruction.Common.{advance, set_arithmetic_flags, set_compare_flags, set_logic_flags}
use m68k_emu.Instruction.ShiftCounts.{Small, shifted-Defined}
use m68k_emu.Decoder.Counts.{Counted, entry-Counted}
use m68k_emu.Instruction.Class.{
  Class, add, sub, and, or, eor, addx, subx, adda, suba, cmp, cmpa, addi, subi, andi, ori, eori,
  cmpi, clr, neg, jmp, jsr, addq, subq, moveq, mul, div, move, pea, ext, tst, lea, bcc, scc,
  bit_manip, bit_shift, link, unlk, rts, nop, illegal, Bcc,
}
use m68k_emu.Decoder.{entry}
use m68k_emu.Cpu.{execute, step}
use m68k_emu.Cpu.Fetch.{dispatched, fetched, step_lem}
use m68k_emu.Instruction.Add
use m68k_emu.Instruction.Sub
use m68k_emu.Instruction.And
use m68k_emu.Instruction.Or
use m68k_emu.Instruction.Eor
use m68k_emu.Instruction.Addx
use m68k_emu.Instruction.Subx
use m68k_emu.Instruction.Adda
use m68k_emu.Instruction.Suba
use m68k_emu.Instruction.Cmp
use m68k_emu.Instruction.Cmpa
use m68k_emu.Instruction.Addi
use m68k_emu.Instruction.Subi
use m68k_emu.Instruction.Andi
use m68k_emu.Instruction.Ori
use m68k_emu.Instruction.Eori
use m68k_emu.Instruction.Cmpi
use m68k_emu.Instruction.Clr
use m68k_emu.Instruction.Neg
use m68k_emu.Instruction.Jmp
use m68k_emu.Instruction.Jsr
use m68k_emu.Instruction.Addq
use m68k_emu.Instruction.Subq
use m68k_emu.Instruction.Moveq
use m68k_emu.Instruction.Mul
use m68k_emu.Instruction.Move
use m68k_emu.Instruction.Pea
use m68k_emu.Instruction.Ext
use m68k_emu.Instruction.Tst
use m68k_emu.Instruction.Lea
use m68k_emu.Instruction.Bcc
use m68k_emu.Instruction.Scc
use m68k_emu.Instruction.BitManip
use m68k_emu.Instruction.BitShift
use m68k_emu.Instruction.Link
use m68k_emu.Instruction.Unlk
use m68k_emu.Instruction.Rts
use m68k_emu.Instruction.Nop
use m68k_emu.Instruction.Illegal

-- A division, which divides by zero on a divisor 0; a shift whose count is a data register, which can
-- be 0 or too large; MULU, whose product can leave the range of `int`; and LEA, PEA, JMP and JSR on an
-- address register with index, which add two signed offsets.
abbrev pub is_risky : Class → Bool
is_risky (div f) = true
is_risky (mul f) = not f.is_signed
is_risky (lea f) = is_indexed f.src_mode
is_risky (pea f) = is_indexed f.addr_mode
is_risky (jmp f) = is_indexed f.dest_mode
is_risky (jsr f) = is_indexed f.dest_mode
is_risky (bit_shift f) = not f.is_memory && not f.is_imm
is_risky _ = false

advance-Defined : Defined advance
unfolding advance
advance-Defined = search defined_rules

set_arithmetic_flags-Defined :
    (src_data dest_data result : ℕ) (size : DataSize)
    → Defined (set_arithmetic_flags src_data dest_data result size)
unfolding set_arithmetic_flags
set_arithmetic_flags-Defined src_data dest_data result size = search defined_rules depth 9

set_logic_flags-Defined : (result : ℕ) (size : DataSize) → Defined (set_logic_flags result size)
unfolding set_logic_flags
set_logic_flags-Defined result size = search defined_rules depth 9

set_compare_flags-Defined :
    (src_data dest_data result : ℕ) (size : DataSize)
    → Defined (set_compare_flags src_data dest_data result size)
unfolding set_compare_flags
set_compare_flags-Defined src_data dest_data result size = search defined_rules depth 9

throw-Defined : {A : Type 0} → Defined {A = A} (throw invalid_argument)
throw-Defined = Defined-throw invalid_argument (λ e. cc e)

ruleset rules = (
  defined_rules, advance-Defined, set_arithmetic_flags-Defined, set_logic_flags-Defined,
  set_compare_flags-Defined, throw-Defined,
)

get_displacement-Defined : (f : Bcc) (size : DataSize) → Defined (Bcc.get_displacement f size)
unfolding Bcc.get_displacement
get_displacement-Defined f byte = search rules
get_displacement-Defined f _ = search rules

branch-Defined :
    (condition : Condition) (pc displacement : ℕ) → Defined (Bcc.branch condition pc displacement)
unfolding Bcc.branch
branch-Defined cond_true pc displacement = search rules
branch-Defined _ pc displacement = search rules

product-defined :
    (is_signed : Bool) (src_data dest_data : ℕ)
    → not is_signed ≡ false
    → Mul.product is_signed src_data dest_data ≢ err undefined
unfolding Mul.product
product-defined true src_data dest_data h e = cc e
product-defined false src_data dest_data h e = cc h

shift_count_lem :
    (f : BitShift)
    → (not f.is_memory && not f.is_imm) ≡ false
    → BitShift.shift_count f ≡ pure f.imm_shift
unfolding BitShift.shift_count
shift_count_lem f e = rw e refl

-- A shift by a count that stands in the opcode.
shift-Defined :
    (f : BitShift)
    → (not f.is_memory && not f.is_imm) ≡ false
    → Small f.imm_shift
    → Defined (BitShift.execute f)
unfolding BitShift.execute
shift-Defined f e h = Defined-bind _ _ (search rules) λ _.
    Defined-bind _ _ (search rules) λ addr_data.
      Defined-bind_pure _ _ f.imm_shift (shift_count_lem f e)
        (search (rules, shifted-Defined) depth 9)

ruleset parts = (rules, product-defined, get_displacement-Defined, branch-Defined)

execute-Defined : (c : Class) → Counted c → is_risky c ≡ false → Defined (execute c)
unfolding execute Add.execute Sub.execute And.execute Or.execute Eor.execute Addx.execute
    Subx.execute Adda.execute Suba.execute Cmp.execute Cmpa.execute Addi.execute Subi.execute
    Andi.execute Ori.execute Eori.execute Cmpi.execute Clr.execute Neg.execute Jmp.execute
    Jsr.execute Addq.execute Subq.execute Moveq.execute Mul.execute Move.execute Pea.execute
    Ext.execute Tst.execute Lea.execute Bcc.execute Scc.execute BitManip.execute Link.execute
    Unlk.execute Rts.execute Nop.execute Illegal.execute Move.move_to_address Move.move_data
execute-Defined (add f) h e = search parts depth 14
execute-Defined (sub f) h e = search parts depth 14
execute-Defined (and f) h e = search parts depth 14
execute-Defined (or f) h e = search parts depth 14
execute-Defined (eor f) h e = search parts depth 14
execute-Defined (addx f) h e = search parts depth 14
execute-Defined (subx f) h e = search parts depth 14
execute-Defined (adda f) h e = search parts depth 14
execute-Defined (suba f) h e = search parts depth 14
execute-Defined (cmp f) h e = search parts depth 14
execute-Defined (cmpa f) h e = search parts depth 14
execute-Defined (addi f) h e = search parts depth 14
execute-Defined (subi f) h e = search parts depth 14
execute-Defined (andi f) h e = search parts depth 14
execute-Defined (ori f) h e = search parts depth 14
execute-Defined (eori f) h e = search parts depth 14
execute-Defined (cmpi f) h e = search parts depth 14
execute-Defined (clr f) h e = search parts depth 14
execute-Defined (neg f) h e = search parts depth 14
execute-Defined (jmp f) h e = search parts depth 14
execute-Defined (jsr f) h e = search parts depth 14
execute-Defined (addq f) h e = search parts depth 14
execute-Defined (subq f) h e = search parts depth 14
execute-Defined (moveq f) h e = search parts depth 14
execute-Defined (mul f) h e = search parts depth 14
execute-Defined (div f) h e = absurd (cc e)
execute-Defined (move f) h e = search parts depth 14
execute-Defined (pea f) h e = search parts depth 14
execute-Defined (ext f) h e = search parts depth 14
execute-Defined (tst f) h e = search parts depth 14
execute-Defined (lea f) h e = search parts depth 14
execute-Defined (bcc f) h e = search parts depth 14
execute-Defined (scc f) h e = search parts depth 14
execute-Defined (bit_manip f) h e = search parts depth 14
execute-Defined (bit_shift f) h e = shift-Defined f e (h e)
execute-Defined (link f) h e = search parts depth 14
execute-Defined (unlk f) h e = search parts depth 14
execute-Defined rts h e = search parts depth 14
execute-Defined nop h e = search parts depth 14
execute-Defined illegal h e = search parts depth 14

-- A step runs into one of the operations to which C++ gives no meaning that the model tells apart, a
-- division by zero, a shift by 64 places or more and an `int` product or sum out of range, only at a
-- DIVU, a DIVS, a MULU, a shift or rotation whose count is a data register, or a LEA, PEA, JMP or JSR
-- on an address register with index; at any other word at PC, and whatever the state, the step returns
-- or throws an exception that the code names.
pub step_undefined :
    (s : CpuState)
    → (step s).0 ≡ err undefined
    → (opcode : ℕ) × (fetched s ≡ ok opcode) × (is_risky (entry (u16 opcode) none).class ≡ true)
step_undefined s h = found (fetched s) refl (ap (λ r. r.0) (sym (step_lem s)) ∙ h)
  where
    found :
        (r : Result ℕ)
        → fetched s ≡ r
        → (dispatched r s).0 ≡ err undefined
        → (opcode : ℕ) × (fetched s ≡ ok opcode) × (is_risky (entry (u16 opcode) none).class ≡ true)
    found (ok opcode) e k = elim (Bool-cases (is_risky (entry (u16 opcode) none).class)) [
      | inl t ↦ (opcode, e, t)
      | inr f ↦
          absurd (
            (execute-Defined (entry (u16 opcode) none).class (entry-Counted (u16 opcode)) f).at s k)
    ]
    found (err x) e k = absurd (get-defined _ _ _ (e ∙ ap err (cc k)))
