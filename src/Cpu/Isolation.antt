-- ===== src/Cpu/Isolation.antt =====
-- No instruction reaches behind the register array or into the system half of the status register.
use m68k_emu.Base.{ℕ, zero, suc, Bool, true, false, ◌≡◌, ◌≤◌, ◌/◌, ◌^◌, arith, refl, u16, none}
use m68k_emu.Defines.{
  DataSize, byte, Condition, cond_true, RegisterType, reg_sr, regs_count, Result, ok, err, reg_d0,
}
use m68k_emu.Registers.{Registers}
use m68k_emu.Registers.Access
use m68k_emu.CpuState.{CpuState}
use m68k_emu.CpuState.Keeps.{Keeps, Keeps-bind}
use m68k_emu.CpuState.Sealed.{Sealed, Ordinary, sealed_rules}
use m68k_emu.Instruction.Common.{advance, set_arithmetic_flags, set_compare_flags, set_logic_flags}
use m68k_emu.Instruction.Class.{
  Class, add, sub, and, or, eor, addx, subx, adda, suba, cmp, cmpa, addi, subi, andi, ori, eori,
  cmpi, clr, neg, jmp, jsr, addq, subq, moveq, mul, div, move, pea, ext, tst, lea, bcc, scc,
  bit_manip, bit_shift, link, unlk, rts, nop, illegal, BitShiftType, arithmetic, Bcc,
}
use m68k_emu.Decoder.{entry}
use m68k_emu.Decoder.Names.{Names, Numbered}
use m68k_emu.Decoder.Shape.{entry-Named}
use m68k_emu.Cpu.{execute, step, steps}
use m68k_emu.Cpu.Fetch.{dispatched, fetched, step_lem}
use m68k_emu.Instruction.Add
use m68k_emu.Instruction.Sub
use m68k_emu.Instruction.And
use m68k_emu.Instruction.Or
use m68k_emu.Instruction.Eor
use m68k_emu.Instruction.Addx
use m68k_emu.Instruction.Subx
use m68k_emu.Instruction.Adda
use m68k_emu.Instruction.Suba
use m68k_emu.Instruction.Cmp
use m68k_emu.Instruction.Cmpa
use m68k_emu.Instruction.Addi
use m68k_emu.Instruction.Subi
use m68k_emu.Instruction.Andi
use m68k_emu.Instruction.Ori
use m68k_emu.Instruction.Eori
use m68k_emu.Instruction.Cmpi
use m68k_emu.Instruction.Clr
use m68k_emu.Instruction.Neg
use m68k_emu.Instruction.Jmp
use m68k_emu.Instruction.Jsr
use m68k_emu.Instruction.Addq
use m68k_emu.Instruction.Subq
use m68k_emu.Instruction.Moveq
use m68k_emu.Instruction.Mul
use m68k_emu.Instruction.Div
use m68k_emu.Instruction.Move
use m68k_emu.Instruction.Pea
use m68k_emu.Instruction.Ext
use m68k_emu.Instruction.Tst
use m68k_emu.Instruction.Lea
use m68k_emu.Instruction.Bcc
use m68k_emu.Instruction.Scc
use m68k_emu.Instruction.BitManip
use m68k_emu.Instruction.BitShift
use m68k_emu.Instruction.Link
use m68k_emu.Instruction.Unlk
use m68k_emu.Instruction.Rts
use m68k_emu.Instruction.Nop
use m68k_emu.Instruction.Illegal

ordinary : (reg : RegisterType) → Numbered reg → Ordinary reg
ordinary reg h = omega arith

zero-Ordinary : Ordinary reg_d0
zero-Ordinary = omega arith

module _ {r : Registers} where
  advance-Sealed : Keeps (Sealed r) advance
  unfolding advance
  advance-Sealed = search sealed_rules

  set_arithmetic_flags-Sealed :
      (src_data dest_data result : ℕ) (size : DataSize)
      → Keeps (Sealed r) (set_arithmetic_flags src_data dest_data result size)
  unfolding set_arithmetic_flags
  set_arithmetic_flags-Sealed src_data dest_data result size = search sealed_rules depth 9

  set_compare_flags-Sealed :
      (src_data dest_data result : ℕ) (size : DataSize)
      → Keeps (Sealed r) (set_compare_flags src_data dest_data result size)
  unfolding set_compare_flags
  set_compare_flags-Sealed src_data dest_data result size = search sealed_rules depth 9

  set_logic_flags-Sealed :
      (result : ℕ) (size : DataSize) → Keeps (Sealed r) (set_logic_flags result size)
  unfolding set_logic_flags
  set_logic_flags-Sealed result size = search sealed_rules depth 9

  ruleset rules = (
    sealed_rules, advance-Sealed, set_arithmetic_flags-Sealed, set_compare_flags-Sealed,
    set_logic_flags-Sealed, ordinary, zero-Ordinary,
  )

  get_displacement-Sealed :
      (f : Bcc) (size : DataSize) → Keeps (Sealed r) (Bcc.get_displacement f size)
  unfolding Bcc.get_displacement
  get_displacement-Sealed f byte = search rules
  get_displacement-Sealed f _ = search rules

  branch-Sealed :
      (condition : Condition) (pc displacement : ℕ)
      → Keeps (Sealed r) (Bcc.branch condition pc displacement)
  unfolding Bcc.branch
  branch-Sealed cond_true pc displacement = search rules
  branch-Sealed _ pc displacement = search rules

  shifted-Sealed :
      (type : BitShiftType) (left : Bool) (size : DataSize) (addr_data shift : ℕ)
      → Keeps (Sealed r) (BitShift.shifted type left size addr_data shift)
  unfolding BitShift.shifted BitShift.set_carry_extend BitShift.shift_left BitShift.shift_right
      BitShift.rotate_extend_left BitShift.rotate_extend_right BitShift.rotate_left
      BitShift.rotate_right
  shifted-Sealed arithmetic true size addr_data shift = search rules depth 9
  shifted-Sealed arithmetic false size addr_data shift = search rules depth 9
  shifted-Sealed _ true size addr_data shift = search rules depth 9
  shifted-Sealed _ false size addr_data shift = search rules depth 9

  ruleset parts = (rules, get_displacement-Sealed, branch-Sealed, shifted-Sealed)

  execute-Sealed : (c : Class) → Names c → Keeps (Sealed r) (execute c)
  unfolding execute Add.execute Sub.execute And.execute Or.execute Eor.execute Addx.execute
      Subx.execute Adda.execute Suba.execute Cmp.execute Cmpa.execute Addi.execute Subi.execute
      Andi.execute Ori.execute Eori.execute Cmpi.execute Clr.execute Neg.execute Jmp.execute
      Jsr.execute Addq.execute Subq.execute Moveq.execute Mul.execute Div.execute Move.execute
      Pea.execute Ext.execute Tst.execute Lea.execute Bcc.execute Scc.execute BitManip.execute
      BitShift.execute Link.execute Unlk.execute Rts.execute Nop.execute Illegal.execute Div.divide
      Move.move_to_address Move.move_data BitShift.shift_count
  execute-Sealed (add f) (h, k) = search parts depth 14
  execute-Sealed (sub f) (h, k) = search parts depth 14
  execute-Sealed (and f) (h, k) = search parts depth 14
  execute-Sealed (or f) (h, k) = search parts depth 14
  execute-Sealed (eor f) (h, k) = search parts depth 14
  execute-Sealed (addx f) (h, k) = search parts depth 14
  execute-Sealed (subx f) (h, k) = search parts depth 14
  execute-Sealed (adda f) (h, k) = search parts depth 14
  execute-Sealed (suba f) (h, k) = search parts depth 14
  execute-Sealed (cmp f) (h, k) = search parts depth 14
  execute-Sealed (cmpa f) (h, k) = search parts depth 14
  execute-Sealed (addi f) h = search parts depth 14
  execute-Sealed (subi f) h = search parts depth 14
  execute-Sealed (andi f) h = search parts depth 14
  execute-Sealed (ori f) h = search parts depth 14
  execute-Sealed (eori f) h = search parts depth 14
  execute-Sealed (cmpi f) h = search parts depth 14
  execute-Sealed (clr f) h = search parts depth 14
  execute-Sealed (neg f) h = search parts depth 14
  execute-Sealed (jmp f) h = search parts depth 14
  execute-Sealed (jsr f) h = search parts depth 14
  execute-Sealed (addq f) h = search parts depth 14
  execute-Sealed (subq f) h = search parts depth 14
  execute-Sealed (moveq f) h = search parts depth 14
  execute-Sealed (mul f) (h, k) = search parts depth 14
  execute-Sealed (div f) (h, k) = search parts depth 14
  execute-Sealed (move f) (h, k) = search parts depth 14
  execute-Sealed (pea f) h = search parts depth 14
  execute-Sealed (ext f) h = search parts depth 14
  execute-Sealed (tst f) h = search parts depth 14
  execute-Sealed (lea f) (h, k) = search parts depth 14
  execute-Sealed (bcc f) h = search parts depth 14
  execute-Sealed (scc f) h = search parts depth 14
  execute-Sealed (bit_manip f) (h, k) = search parts depth 14
  execute-Sealed (bit_shift f) (h, k) = search parts depth 14
  execute-Sealed (link f) h = search parts depth 14
  execute-Sealed (unlk f) h = search parts depth 14
  execute-Sealed rts h = search parts depth 14
  execute-Sealed nop h = search parts depth 14
  execute-Sealed illegal h = search parts depth 14

  dispatched-Sealed : (f : Result ℕ) (s : CpuState) → Sealed r s → Sealed r (dispatched f s).1
  dispatched-Sealed (ok opcode) s v =
      (execute-Sealed (entry (u16 opcode) none).class (entry-Named (u16 opcode)).names).at s v
  dispatched-Sealed (err e) s v = v

  step-Sealed : Keeps (Sealed r) step
  step-Sealed = record { at = λ s v. rw (step_lem s) (dispatched-Sealed (fetched s) s v) }

  run-Sealed : (count : ℕ) → Keeps (Sealed r) (steps count)
  unfolding steps
  run-Sealed zero = search parts
  run-Sealed (suc count) = Keeps-bind step (λ _. steps count) step-Sealed (λ _. run-Sealed count)

-- From a state with 32-bit registers and a 16-bit status register, no number of steps, whatever the
-- memory holds and also if a step throws, changes a place behind the 19 entries of the register
-- array, or the digits from 5 up of the status register, among them supervisor and trace.
pub steps_isolated :
    (count : ℕ) (s : CpuState)
    → Access.IsValid s.registers
    → ((i : ℕ)
        → regs_count ≤ i
        → (steps count s).1.registers.reg_buffer i ≡ s.registers.reg_buffer i)
      × ((steps count s).1.registers.reg_buffer reg_sr / 2 ^ 5
          ≡ s.registers.reg_buffer reg_sr / 2 ^ 5)
steps_isolated count s v =
    let sealed =
      (run-Sealed count).at s (record { valid = v; behind = λ i hi. refl; system = refl }) in
    (sealed.behind, sealed.system)
