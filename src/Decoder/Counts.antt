-- ===== src/Decoder/Counts.antt =====
-- The counts of the shifts in a decoded instruction, which `BitShift::BitShift` of
-- src/instructions/bit_shift.cpp forms from three digits of the opcode.
use m68k_emu.Base.{ℕ, ◌≡◌, false, not, ◌&&◌, none, arith, ◌>>>◌}
use m68k_emu.Base.Bits.{bit_and_low}
use m68k_emu.Base.Lists.{All}
use m68k_emu.Instruction.ShiftCounts.{Small}
use m68k_emu.Decoder.Table.{opcode_mask_table}
use m68k_emu.Decoder.Generated.{entry_holds, Creates}
use m68k_emu.Instruction.Class.{Class, bit_shift}
use m68k_emu.Decoder.{entry}
use m68k_emu.Instruction.Add
use m68k_emu.Instruction.Sub
use m68k_emu.Instruction.And
use m68k_emu.Instruction.Or
use m68k_emu.Instruction.Eor
use m68k_emu.Instruction.Addx
use m68k_emu.Instruction.Subx
use m68k_emu.Instruction.Adda
use m68k_emu.Instruction.Suba
use m68k_emu.Instruction.Cmp
use m68k_emu.Instruction.Cmpa
use m68k_emu.Instruction.Addi
use m68k_emu.Instruction.Subi
use m68k_emu.Instruction.Andi
use m68k_emu.Instruction.Ori
use m68k_emu.Instruction.Eori
use m68k_emu.Instruction.Cmpi
use m68k_emu.Instruction.Clr
use m68k_emu.Instruction.Neg
use m68k_emu.Instruction.Jmp
use m68k_emu.Instruction.Jsr
use m68k_emu.Instruction.Addq
use m68k_emu.Instruction.Subq
use m68k_emu.Instruction.Moveq
use m68k_emu.Instruction.Mul
use m68k_emu.Instruction.Div
use m68k_emu.Instruction.Move
use m68k_emu.Instruction.Pea
use m68k_emu.Instruction.Ext
use m68k_emu.Instruction.Tst
use m68k_emu.Instruction.Lea
use m68k_emu.Instruction.Bcc
use m68k_emu.Instruction.Scc
use m68k_emu.Instruction.BitManip
use m68k_emu.Instruction.BitShift
use m68k_emu.Instruction.Link
use m68k_emu.Instruction.Unlk
use m68k_emu.Instruction.Rts
use m68k_emu.Instruction.Nop
use m68k_emu.Instruction.Illegal

-- A count that stands in the opcode is one from 1 to 8.
abbrev pub Counted : Class → Type 0
Counted (bit_shift f) = (not f.is_memory && not f.is_imm) ≡ false → Small f.imm_shift
Counted _ = Unit {0}

bit_shift-Counted : (opcode : ℕ) → Counted (BitShift.create opcode).class
unfolding BitShift.create
bit_shift-Counted opcode h = ground (arith, h, bit_and_low 3 (opcode >>> 9))

rows_Counted : All (Creates (λ i. Counted i.class)) opcode_mask_table
unfolding opcode_mask_table Add.create Sub.create And.create Or.create Eor.create Addx.create
    Subx.create Adda.create Suba.create Cmp.create Cmpa.create Addi.create Subi.create Andi.create
    Ori.create Eori.create Cmpi.create Clr.create Neg.create Jmp.create Jsr.create Addq.create
    Subq.create Moveq.create Mul.create Div.create Move.create Pea.create Ext.create Tst.create
    Lea.create Bcc.create Scc.create BitManip.create Link.create Unlk.create Rts.create Nop.create
    Illegal.create
rows_Counted = search bit_shift-Counted depth 70

pub entry-Counted : (opcode : ℕ) → Counted (entry opcode none).class
unfolding Illegal.create
entry-Counted opcode = entry_holds (λ i. Counted i.class) opcode rows_Counted tt
