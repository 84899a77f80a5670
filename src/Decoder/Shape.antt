-- ===== src/Decoder/Shape.antt =====
-- The register numbers in a decoded instruction: each `create` of src/instructions/*.cpp forms them
-- from three digits of the opcode.
use m68k_emu.Base.{
  ℕ, ◌<◌, Bool, true, false, truth, if◌then◌else◌, arith, Bool-cases, inl, inr, none, ◌>>>◌,
}
use m68k_emu.Base.Bits.{bit_and_low}
use m68k_emu.Base.Lists.{All}
use m68k_emu.Defines.{RegisterType, reg_d0}
use m68k_emu.Instruction.{get_register_type}
use m68k_emu.Instruction.Common.{part1, part3, two_operands, dest_operand, address_operands}
use m68k_emu.Decoder.Names.{Names, Numbered, Named}
use m68k_emu.Decoder.{entry}
use m68k_emu.Decoder.Table.{opcode_mask_table}
use m68k_emu.Decoder.Generated.{entry_holds, Creates}
use m68k_emu.Instruction.Add
use m68k_emu.Instruction.Sub
use m68k_emu.Instruction.And
use m68k_emu.Instruction.Or
use m68k_emu.Instruction.Eor
use m68k_emu.Instruction.Addx
use m68k_emu.Instruction.Subx
use m68k_emu.Instruction.Adda
use m68k_emu.Instruction.Suba
use m68k_emu.Instruction.Cmp
use m68k_emu.Instruction.Cmpa
use m68k_emu.Instruction.Addi
use m68k_emu.Instruction.Subi
use m68k_emu.Instruction.Andi
use m68k_emu.Instruction.Ori
use m68k_emu.Instruction.Eori
use m68k_emu.Instruction.Cmpi
use m68k_emu.Instruction.Clr
use m68k_emu.Instruction.Neg
use m68k_emu.Instruction.Jmp
use m68k_emu.Instruction.Jsr
use m68k_emu.Instruction.Addq
use m68k_emu.Instruction.Subq
use m68k_emu.Instruction.Moveq
use m68k_emu.Instruction.Mul
use m68k_emu.Instruction.Div
use m68k_emu.Instruction.Move
use m68k_emu.Instruction.Pea
use m68k_emu.Instruction.Ext
use m68k_emu.Instruction.Tst
use m68k_emu.Instruction.Lea
use m68k_emu.Instruction.Bcc
use m68k_emu.Instruction.Scc
use m68k_emu.Instruction.BitManip
use m68k_emu.Instruction.BitShift
use m68k_emu.Instruction.Link
use m68k_emu.Instruction.Unlk
use m68k_emu.Instruction.Rts
use m68k_emu.Instruction.Nop
use m68k_emu.Instruction.Illegal

part3-lt : (opcode shift : ℕ) → part3 opcode shift < 8
part3-lt opcode shift = omega (arith, bit_and_low 3 (opcode >>> shift))

-- The second number of `getRegisterType` is below 8 wherever it is three digits of the opcode.
register-Numbered :
    (part_mode opcode shift : ℕ) → Numbered (get_register_type part_mode (part3 opcode shift))
unfolding get_register_type
register-Numbered part_mode opcode shift = ground (arith, part3-lt opcode shift)

zero-Numbered : Numbered reg_d0
zero-Numbered = omega arith

if-Numbered :
    (b : Bool) (x y : RegisterType) → Numbered x → Numbered y → Numbered (if b then x else y)
if-Numbered true x y hx hy = hx
if-Numbered false x y hx hy = hy

two_operands-Named :
    (opcode : ℕ) → Numbered (two_operands opcode).dest_reg × Numbered (two_operands opcode).src_reg
unfolding two_operands
two_operands-Named opcode =
    ground (arith, register-Numbered 0 opcode 9, register-Numbered (part3 opcode 3) opcode 0)

eor_operands-Named :
    (opcode : ℕ)
    → Numbered (Eor.eor_operands opcode).dest_reg × Numbered (Eor.eor_operands opcode).src_reg
unfolding Eor.eor_operands
eor_operands-Named opcode = elim (Bool-cases (truth (part1 opcode 8))) [
  | inl t ↦ rw t (two_operands-Named opcode)
  | inr f ↦ rw f (zero-Numbered, zero-Numbered)
]

ruleset shapes =
    (register-Numbered, if-Numbered, zero-Numbered, two_operands-Named, eor_operands-Named)

rows_Named : All (Creates (λ i. Names i.class)) opcode_mask_table
unfolding opcode_mask_table dest_operand address_operands Add.create Adda.create Addi.create
    Addq.create Addx.create And.create Andi.create Bcc.create BitManip.create BitShift.create
    Clr.create Cmp.create Cmpa.create Cmpi.create Div.create Eor.create Eori.create Ext.create
    Jmp.create Jsr.create Lea.create Link.create Move.create Moveq.create Mul.create Neg.create
    Nop.create Or.create Ori.create Pea.create Rts.create Scc.create Sub.create Suba.create
    Subi.create Subq.create Subx.create Tst.create Unlk.create Illegal.create
rows_Named = search shapes depth 70

-- Whatever the opcode, each register number in its table entry is below 16.
pub entry-Named : (opcode : ℕ) → Named (entry opcode none)
unfolding Illegal.create
entry-Named opcode = record { names = entry_holds (λ i. Names i.class) opcode rows_Named tt }
