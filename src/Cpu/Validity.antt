-- ===== src/Cpu/Validity.antt =====
-- Every instruction keeps the machine well formed, whether it returns or throws.
use m68k_emu.Base.{ℕ, Bool, true, false}
use m68k_emu.Defines.{DataSize, byte, Condition, cond_true}
use m68k_emu.CpuState.Keeps.{Keeps}
use m68k_emu.CpuState.Validity.{IsValid, validity_rules}
use m68k_emu.Instruction.Common.{advance, set_arithmetic_flags, set_compare_flags, set_logic_flags}
use m68k_emu.Instruction.Class.{
  Class, add, sub, and, or, eor, addx, subx, adda, suba, cmp, cmpa, addi, subi, andi, ori, eori,
  cmpi, clr, neg, jmp, jsr, addq, subq, moveq, mul, div, move, pea, ext, tst, lea, bcc, scc,
  bit_manip, bit_shift, link, unlk, rts, nop, illegal, BitShiftType, arithmetic, Bcc,
}
use m68k_emu.Cpu.{execute, step}
use m68k_emu.Instruction.Add
use m68k_emu.Instruction.Adda
use m68k_emu.Instruction.Addi
use m68k_emu.Instruction.Addq
use m68k_emu.Instruction.Addx
use m68k_emu.Instruction.And
use m68k_emu.Instruction.Andi
use m68k_emu.Instruction.Bcc
use m68k_emu.Instruction.BitManip
use m68k_emu.Instruction.BitShift
use m68k_emu.Instruction.Clr
use m68k_emu.Instruction.Cmp
use m68k_emu.Instruction.Cmpa
use m68k_emu.Instruction.Cmpi
use m68k_emu.Instruction.Div
use m68k_emu.Instruction.Eor
use m68k_emu.Instruction.Eori
use m68k_emu.Instruction.Ext
use m68k_emu.Instruction.Illegal
use m68k_emu.Instruction.Jmp
use m68k_emu.Instruction.Jsr
use m68k_emu.Instruction.Lea
use m68k_emu.Instruction.Link
use m68k_emu.Instruction.Move
use m68k_emu.Instruction.Moveq
use m68k_emu.Instruction.Mul
use m68k_emu.Instruction.Neg
use m68k_emu.Instruction.Nop
use m68k_emu.Instruction.Or
use m68k_emu.Instruction.Ori
use m68k_emu.Instruction.Pea
use m68k_emu.Instruction.Rts
use m68k_emu.Instruction.Scc
use m68k_emu.Instruction.Sub
use m68k_emu.Instruction.Suba
use m68k_emu.Instruction.Subi
use m68k_emu.Instruction.Subq
use m68k_emu.Instruction.Subx
use m68k_emu.Instruction.Tst
use m68k_emu.Instruction.Unlk

module _ {n : ℕ} where
  advance-IsValid : Keeps (IsValid n) advance
  unfolding advance
  advance-IsValid = search validity_rules

  set_arithmetic_flags-IsValid :
      (src_data dest_data result : ℕ) (size : DataSize)
      → Keeps (IsValid n) (set_arithmetic_flags src_data dest_data result size)
  unfolding set_arithmetic_flags
  set_arithmetic_flags-IsValid src_data dest_data result size = search validity_rules depth 9

  set_compare_flags-IsValid :
      (src_data dest_data result : ℕ) (size : DataSize)
      → Keeps (IsValid n) (set_compare_flags src_data dest_data result size)
  unfolding set_compare_flags
  set_compare_flags-IsValid src_data dest_data result size = search validity_rules depth 9

  set_logic_flags-IsValid :
      (result : ℕ) (size : DataSize) → Keeps (IsValid n) (set_logic_flags result size)
  unfolding set_logic_flags
  set_logic_flags-IsValid result size = search validity_rules depth 9

  ruleset rules = (
    validity_rules, advance-IsValid, set_arithmetic_flags-IsValid, set_compare_flags-IsValid,
    set_logic_flags-IsValid,
  )

  get_displacement-IsValid :
      (f : Bcc) (size : DataSize) → Keeps (IsValid n) (Bcc.get_displacement f size)
  unfolding Bcc.get_displacement
  get_displacement-IsValid f byte = search rules
  get_displacement-IsValid f _ = search rules

  branch-IsValid :
      (condition : Condition) (pc displacement : ℕ)
      → Keeps (IsValid n) (Bcc.branch condition pc displacement)
  unfolding Bcc.branch
  branch-IsValid cond_true pc displacement = search rules
  branch-IsValid _ pc displacement = search rules

  shifted-IsValid :
      (type : BitShiftType) (left : Bool) (size : DataSize) (addr_data shift : ℕ)
      → Keeps (IsValid n) (BitShift.shifted type left size addr_data shift)
  unfolding BitShift.shifted BitShift.set_carry_extend BitShift.shift_left BitShift.shift_right
      BitShift.rotate_extend_left BitShift.rotate_extend_right BitShift.rotate_left
      BitShift.rotate_right
  shifted-IsValid arithmetic true size addr_data shift = search rules depth 9
  shifted-IsValid arithmetic false size addr_data shift = search rules depth 9
  shifted-IsValid _ true size addr_data shift = search rules depth 9
  shifted-IsValid _ false size addr_data shift = search rules depth 9

  ruleset parts = (rules, get_displacement-IsValid, branch-IsValid, shifted-IsValid)

  pub execute-IsValid : (c : Class) → Keeps (IsValid n) (execute c)
  unfolding execute Add.execute Sub.execute And.execute Or.execute Eor.execute Addx.execute
      Subx.execute Adda.execute Suba.execute Cmp.execute Cmpa.execute Addi.execute Subi.execute
      Andi.execute Ori.execute Eori.execute Cmpi.execute Clr.execute Neg.execute Jmp.execute
      Jsr.execute Addq.execute Subq.execute Moveq.execute Mul.execute Div.execute Div.divide
      Move.execute Move.move_to_address Move.move_data Pea.execute Ext.execute Tst.execute
      Lea.execute Bcc.execute Scc.execute BitManip.execute BitShift.execute BitShift.shift_count
      Link.execute Unlk.execute Rts.execute Nop.execute Illegal.execute
  execute-IsValid (add f) = search parts depth 14
  execute-IsValid (sub f) = search parts depth 14
  execute-IsValid (and f) = search parts depth 14
  execute-IsValid (or f) = search parts depth 14
  execute-IsValid (eor f) = search parts depth 14
  execute-IsValid (addx f) = search parts depth 14
  execute-IsValid (subx f) = search parts depth 14
  execute-IsValid (adda f) = search parts depth 14
  execute-IsValid (suba f) = search parts depth 14
  execute-IsValid (cmp f) = search parts depth 14
  execute-IsValid (cmpa f) = search parts depth 14
  execute-IsValid (addi f) = search parts depth 14
  execute-IsValid (subi f) = search parts depth 14
  execute-IsValid (andi f) = search parts depth 14
  execute-IsValid (ori f) = search parts depth 14
  execute-IsValid (eori f) = search parts depth 14
  execute-IsValid (cmpi f) = search parts depth 14
  execute-IsValid (clr f) = search parts depth 14
  execute-IsValid (neg f) = search parts depth 14
  execute-IsValid (jmp f) = search parts depth 14
  execute-IsValid (jsr f) = search parts depth 14
  execute-IsValid (addq f) = search parts depth 14
  execute-IsValid (subq f) = search parts depth 14
  execute-IsValid (moveq f) = search parts depth 14
  execute-IsValid (mul f) = search parts depth 14
  execute-IsValid (div f) = search parts depth 14
  execute-IsValid (move f) = search parts depth 14
  execute-IsValid (pea f) = search parts depth 14
  execute-IsValid (ext f) = search parts depth 14
  execute-IsValid (tst f) = search parts depth 14
  execute-IsValid (lea f) = search parts depth 14
  execute-IsValid (bcc f) = search parts depth 14
  execute-IsValid (scc f) = search parts depth 14
  execute-IsValid (bit_manip f) = search parts depth 14
  execute-IsValid (bit_shift f) = search parts depth 14
  execute-IsValid (link f) = search parts depth 14
  execute-IsValid (unlk f) = search parts depth 14
  execute-IsValid rts = search parts depth 14
  execute-IsValid nop = search parts depth 14
  execute-IsValid illegal = search parts depth 14

  -- From a well-formed state, one step leads to a well-formed state, whatever instruction the
  -- memory holds, and also if it throws.
  pub step-IsValid : Keeps (IsValid n) step
  unfolding step
  step-IsValid = search (parts, execute-IsValid)
