-- ===== src/Decoder/Table.antt =====
-- `opcode_mask_table` of src/instruction_decoder.cpp: which digits of an opcode are looked at,
-- what they must be, and the constructor that is then called. The rows that the source has
-- commented out are left out here too.
use m68k_emu.Base.{ℕ, List, [], ◌∷◌}
use m68k_emu.Instruction.Class.{Instruction}
use m68k_emu.Instruction.Add
use m68k_emu.Instruction.Adda
use m68k_emu.Instruction.Addi
use m68k_emu.Instruction.Addq
use m68k_emu.Instruction.Addx
use m68k_emu.Instruction.And
use m68k_emu.Instruction.Andi
use m68k_emu.Instruction.Bcc
use m68k_emu.Instruction.BitManip
use m68k_emu.Instruction.BitShift
use m68k_emu.Instruction.Clr
use m68k_emu.Instruction.Cmp
use m68k_emu.Instruction.Cmpa
use m68k_emu.Instruction.Cmpi
use m68k_emu.Instruction.Div
use m68k_emu.Instruction.Eor
use m68k_emu.Instruction.Eori
use m68k_emu.Instruction.Ext
use m68k_emu.Instruction.Illegal
use m68k_emu.Instruction.Jmp
use m68k_emu.Instruction.Jsr
use m68k_emu.Instruction.Lea
use m68k_emu.Instruction.Link
use m68k_emu.Instruction.Move
use m68k_emu.Instruction.Moveq
use m68k_emu.Instruction.Mul
use m68k_emu.Instruction.Neg
use m68k_emu.Instruction.Nop
use m68k_emu.Instruction.Or
use m68k_emu.Instruction.Ori
use m68k_emu.Instruction.Pea
use m68k_emu.Instruction.Rts
use m68k_emu.Instruction.Scc
use m68k_emu.Instruction.Sub
use m68k_emu.Instruction.Suba
use m68k_emu.Instruction.Subi
use m68k_emu.Instruction.Subq
use m68k_emu.Instruction.Subx
use m68k_emu.Instruction.Tst
use m68k_emu.Instruction.Unlk

pub record MaskTableElement : Type 0 where
  pub mask : ℕ
  pub value : ℕ
  pub create_function : ℕ → Instruction

abbrev row : ℕ → ℕ → (ℕ → Instruction) → MaskTableElement
row mask value create = record { mask = mask; value = value; create_function = create }

unfoldable pub opcode_mask_table : List MaskTableElement
opcode_mask_table =
    row 0xFFFF 0x4AFC Illegal.create
    ∷ row 0xFFFF 0x4E71 Nop.create
    ∷ row 0xFFFF 0x4E75 Rts.create
    ∷ row 0xFFF8 0x4E50 Link.create
    ∷ row 0xFFF8 0x4E58 Unlk.create
    ∷ row 0xFFB8 0x4880 Ext.create
    ∷ row 0xFFC0 0x0800 BitManip.create
    ∷ row 0xFFC0 0x0840 BitManip.create
    ∷ row 0xFFC0 0x0880 BitManip.create
    ∷ row 0xFFC0 0x08C0 BitManip.create
    ∷ row 0xFFC0 0x4840 Pea.create
    ∷ row 0xFFC0 0x4E80 Jsr.create
    ∷ row 0xFFC0 0x4EC0 Jmp.create
    ∷ row 0xFEC0 0xE0C0 BitShift.create
    ∷ row 0xFEC0 0xE2C0 BitShift.create
    ∷ row 0xFEC0 0xE4C0 BitShift.create
    ∷ row 0xFEC0 0xE6C0 BitShift.create
    ∷ row 0xFF00 0x0000 Ori.create
    ∷ row 0xFF00 0x0200 Andi.create
    ∷ row 0xFF00 0x0400 Subi.create
    ∷ row 0xFF00 0x0600 Addi.create
    ∷ row 0xFF00 0x0A00 Eori.create
    ∷ row 0xFF00 0x0C00 Cmpi.create
    ∷ row 0xFF00 0x4200 Clr.create
    ∷ row 0xFF00 0x4400 Neg.create
    ∷ row 0xFF00 0x4A00 Tst.create
    ∷ row 0xFF00 0x6000 Bcc.create
    ∷ row 0xFF00 0x6100 Bcc.create
    ∷ row 0xF0C0 0xB0C0 Cmpa.create
    ∷ row 0xF1C0 0x0100 BitManip.create
    ∷ row 0xF1C0 0x0140 BitManip.create
    ∷ row 0xF1C0 0x0180 BitManip.create
    ∷ row 0xF1C0 0x01C0 BitManip.create
    ∷ row 0xF1C0 0x3040 Move.create
    ∷ row 0xF1C0 0x2040 Move.create
    ∷ row 0xF1C0 0x41C0 Lea.create
    ∷ row 0xF1C0 0x80C0 Div.create
    ∷ row 0xF1C0 0x81C0 Div.create
    ∷ row 0xF0C0 0x90C0 Suba.create
    ∷ row 0xF1C0 0xC0C0 Mul.create
    ∷ row 0xF1C0 0xC1C0 Mul.create
    ∷ row 0xF000 0xC000 And.create
    ∷ row 0xF0C0 0xD0C0 Adda.create
    ∷ row 0xF130 0xD100 Addx.create
    ∷ row 0xF0C0 0x50C0 Scc.create
    ∷ row 0xF130 0x9100 Subx.create
    ∷ row 0xF018 0xE000 BitShift.create
    ∷ row 0xF018 0xE008 BitShift.create
    ∷ row 0xF018 0xE010 BitShift.create
    ∷ row 0xF018 0xE018 BitShift.create
    ∷ row 0xF100 0x5000 Addq.create
    ∷ row 0xF100 0x5100 Subq.create
    ∷ row 0xF100 0x7000 Moveq.create
    ∷ row 0xF100 0xB100 Eor.create
    ∷ row 0xF100 0xB000 Cmp.create
    ∷ row 0xF000 0x3000 Move.create
    ∷ row 0xF000 0x2000 Move.create
    ∷ row 0xF000 0x1000 Move.create
    ∷ row 0xF000 0x6000 Bcc.create
    ∷ row 0xF000 0x8000 Or.create
    ∷ row 0xF000 0x9000 Sub.create
    ∷ row 0xF000 0xD000 Add.create
    ∷ []
