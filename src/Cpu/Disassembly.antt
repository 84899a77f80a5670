-- ===== src/Cpu/Disassembly.antt =====
-- The virtual call of `disassembly`, and what it leaves alone.
use m68k_emu.Base.{ℕ, ◌≡◌, ◌≢◌, refl, arith}
use m68k_emu.Base.Text.{Text}
use m68k_emu.Defines.{DataSize, byte, long, AddressingMode, direct_addr, reg_pc, RegisterType}
use m68k_emu.Registers
use m68k_emu.Registers.{Registers}
use m68k_emu.Memory.{BaseMemory}
use m68k_emu.CpuState.{CpuState, Action, set_register}
use m68k_emu.CpuState.Keeps.{Keeps, keeps_rules}
use m68k_emu.CpuState.Operands.{get_data}
use m68k_emu.Disassembler.{fetch, effective_address, one_operand, two_operands_text, number_operand}
use m68k_emu.Instruction.Common.{advance}
use m68k_emu.Instruction.Class.{
  Class, add, sub, and, or, eor, addx, subx, adda, suba, cmp, cmpa, addi, subi, andi, ori, eori,
  cmpi, clr, neg, jmp, jsr, addq, subq, moveq, mul, div, move, pea, ext, tst, lea, bcc, scc,
  bit_manip, bit_shift, link, unlk, rts, nop, illegal, Bcc,
}
use m68k_emu.Instruction.Add
use m68k_emu.Instruction.Sub
use m68k_emu.Instruction.And
use m68k_emu.Instruction.Or
use m68k_emu.Instruction.Eor
use m68k_emu.Instruction.Addx
use m68k_emu.Instruction.Subx
use m68k_emu.Instruction.Adda
use m68k_emu.Instruction.Suba
use m68k_emu.Instruction.Cmp
use m68k_emu.Instruction.Cmpa
use m68k_emu.Instruction.Addi
use m68k_emu.Instruction.Subi
use m68k_emu.Instruction.Andi
use m68k_emu.Instruction.Ori
use m68k_emu.Instruction.Eori
use m68k_emu.Instruction.Cmpi
use m68k_emu.Instruction.Clr
use m68k_emu.Instruction.Neg
use m68k_emu.Instruction.Jmp
use m68k_emu.Instruction.Jsr
use m68k_emu.Instruction.Addq
use m68k_emu.Instruction.Subq
use m68k_emu.Instruction.Moveq
use m68k_emu.Instruction.Mul
use m68k_emu.Instruction.Div
use m68k_emu.Instruction.Move
use m68k_emu.Instruction.Pea
use m68k_emu.Instruction.Ext
use m68k_emu.Instruction.Tst
use m68k_emu.Instruction.Lea
use m68k_emu.Instruction.Bcc
use m68k_emu.Instruction.Scc
use m68k_emu.Instruction.BitManip
use m68k_emu.Instruction.BitShift
use m68k_emu.Instruction.Link
use m68k_emu.Instruction.Unlk
use m68k_emu.Instruction.Rts
use m68k_emu.Instruction.Nop
use m68k_emu.Instruction.Illegal

unfoldable pub disassembly : Class → Action Text
disassembly (add f) = Add.disassembly f
disassembly (sub f) = Sub.disassembly f
disassembly (and f) = And.disassembly f
disassembly (or f) = Or.disassembly f
disassembly (eor f) = Eor.disassembly f
disassembly (addx f) = Addx.disassembly f
disassembly (subx f) = Subx.disassembly f
disassembly (adda f) = Adda.disassembly f
disassembly (suba f) = Suba.disassembly f
disassembly (cmp f) = Cmp.disassembly f
disassembly (cmpa f) = Cmpa.disassembly f
disassembly (addi f) = Addi.disassembly f
disassembly (subi f) = Subi.disassembly f
disassembly (andi f) = Andi.disassembly f
disassembly (ori f) = Ori.disassembly f
disassembly (eori f) = Eori.disassembly f
disassembly (cmpi f) = Cmpi.disassembly f
disassembly (clr f) = Clr.disassembly f
disassembly (neg f) = Neg.disassembly f
disassembly (jmp f) = Jmp.disassembly f
disassembly (jsr f) = Jsr.disassembly f
disassembly (addq f) = Addq.disassembly f
disassembly (subq f) = Subq.disassembly f
disassembly (moveq f) = Moveq.disassembly f
disassembly (mul f) = Mul.disassembly f
disassembly (div f) = Div.disassembly f
disassembly (move f) = Move.disassembly f
disassembly (pea f) = Pea.disassembly f
disassembly (ext f) = Ext.disassembly f
disassembly (tst f) = Tst.disassembly f
disassembly (lea f) = Lea.disassembly f
disassembly (bcc f) = Bcc.disassembly f
disassembly (scc f) = Scc.disassembly f
disassembly (bit_manip f) = BitManip.disassembly f
disassembly (bit_shift f) = BitShift.disassembly f
disassembly (link f) = Link.disassembly f
disassembly (unlk f) = Unlk.disassembly f
disassembly rts = Rts.disassembly
disassembly nop = Nop.disassembly
disassembly illegal = Illegal.disassembly

-- The memory is `m`, and the register array is `r` except at PC.
pub record Reads (m : BaseMemory) (r : Registers) (s : CpuState) : Type 0 where
  pub memory : s.memory ≡ m
  pub others : (i : ℕ) → i ≢ reg_pc → s.registers.reg_buffer i ≡ r.reg_buffer i

module _ {m : BaseMemory} {r : Registers} where
  set_pc-Reads : (value : ℕ) → Keeps (Reads m r) (set_register reg_pc long value)
  unfolding set_register Registers.set Registers.physical
  set_pc-Reads value = record {
    at = λ s h. record { memory = h.memory; others = λ i np. ground (arith, h.others i np) };
  }

  ruleset reads_base = (keeps_rules, set_pc-Reads)

  advance-Reads : Keeps (Reads m r) advance
  unfolding advance
  advance-Reads = search reads_base

  effective_address-Reads :
      (mode : AddressingMode) (reg : RegisterType) (size : DataSize)
      → Keeps (Reads m r) (effective_address mode reg size)
  unfolding effective_address fetch
  effective_address-Reads direct_addr reg size = search reads_base
  effective_address-Reads _ reg size = search reads_base

  get_displacement-Reads :
      (f : Bcc) (size : DataSize) → Keeps (Reads m r) (Bcc.get_displacement f size)
  unfolding Bcc.get_displacement get_data
  get_displacement-Reads f byte = search reads_base
  get_displacement-Reads f _ = search reads_base

  ruleset reads_rules = (reads_base, advance-Reads, effective_address-Reads, get_displacement-Reads)

  disassembly-Reads : (c : Class) → Keeps (Reads m r) (disassembly c)
  unfolding disassembly one_operand two_operands_text number_operand Add.disassembly Sub.disassembly
      And.disassembly Or.disassembly Eor.disassembly Addx.disassembly Subx.disassembly
      Adda.disassembly Suba.disassembly Cmp.disassembly Cmpa.disassembly Addi.disassembly
      Subi.disassembly Andi.disassembly Ori.disassembly Eori.disassembly Cmpi.disassembly
      Clr.disassembly Neg.disassembly Jmp.disassembly Jsr.disassembly Addq.disassembly
      Subq.disassembly Moveq.disassembly Mul.disassembly Div.disassembly Move.disassembly
      Pea.disassembly Ext.disassembly Tst.disassembly Lea.disassembly Bcc.disassembly
      Scc.disassembly BitManip.disassembly BitShift.disassembly Link.disassembly Unlk.disassembly
      Rts.disassembly Nop.disassembly Illegal.disassembly
  disassembly-Reads (add f) = search reads_rules depth 9
  disassembly-Reads (sub f) = search reads_rules depth 9
  disassembly-Reads (and f) = search reads_rules depth 9
  disassembly-Reads (or f) = search reads_rules depth 9
  disassembly-Reads (eor f) = search reads_rules depth 9
  disassembly-Reads (addx f) = search reads_rules depth 9
  disassembly-Reads (subx f) = search reads_rules depth 9
  disassembly-Reads (adda f) = search reads_rules depth 9
  disassembly-Reads (suba f) = search reads_rules depth 9
  disassembly-Reads (cmp f) = search reads_rules depth 9
  disassembly-Reads (cmpa f) = search reads_rules depth 9
  disassembly-Reads (addi f) = search reads_rules depth 9
  disassembly-Reads (subi f) = search reads_rules depth 9
  disassembly-Reads (andi f) = search reads_rules depth 9
  disassembly-Reads (ori f) = search reads_rules depth 9
  disassembly-Reads (eori f) = search reads_rules depth 9
  disassembly-Reads (cmpi f) = search reads_rules depth 9
  disassembly-Reads (clr f) = search reads_rules depth 9
  disassembly-Reads (neg f) = search reads_rules depth 9
  disassembly-Reads (jmp f) = search reads_rules depth 9
  disassembly-Reads (jsr f) = search reads_rules depth 9
  disassembly-Reads (addq f) = search reads_rules depth 9
  disassembly-Reads (subq f) = search reads_rules depth 9
  disassembly-Reads (moveq f) = search reads_rules depth 9
  disassembly-Reads (mul f) = search reads_rules depth 9
  disassembly-Reads (div f) = search reads_rules depth 9
  disassembly-Reads (move f) = search reads_rules depth 9
  disassembly-Reads (pea f) = search reads_rules depth 9
  disassembly-Reads (ext f) = search reads_rules depth 9
  disassembly-Reads (tst f) = search reads_rules depth 9
  disassembly-Reads (lea f) = search reads_rules depth 9
  disassembly-Reads (bcc f) = search reads_rules depth 9
  disassembly-Reads (scc f) = search reads_rules depth 9
  disassembly-Reads (bit_manip f) = search reads_rules depth 9
  disassembly-Reads (bit_shift f) = search reads_rules depth 9
  disassembly-Reads (link f) = search reads_rules depth 9
  disassembly-Reads (unlk f) = search reads_rules depth 9
  disassembly-Reads rts = search reads_rules depth 9
  disassembly-Reads nop = search reads_rules depth 9
  disassembly-Reads illegal = search reads_rules depth 9

-- Printing an instruction, whatever its class and operands and also if a read throws, leaves the
-- memory and every entry of the register array but PC as they were.
pub disassembly_frame :
    (c : Class) (s : CpuState)
    → ((disassembly c s).1.memory ≡ s.memory)
      × ((i : ℕ)
          → i ≢ reg_pc
          → (disassembly c s).1.registers.reg_buffer i ≡ s.registers.reg_buffer i)
disassembly_frame c s =
    let reads = (disassembly-Reads c).at s (record { memory = refl; others = λ i np. refl }) in
    (reads.memory, reads.others)
