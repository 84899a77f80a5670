-- ===== src/Decoder/Names.antt =====
-- The registers that a decoded instruction names.
use m68k_emu.Base.{◌<◌}
use m68k_emu.Defines.{RegisterType}
use m68k_emu.Instruction.Class.{
  Class, Instruction, add, sub, and, or, eor, addx, subx, adda, suba, cmp, cmpa, addi, subi, andi,
  ori, eori, cmpi, clr, neg, jmp, jsr, addq, subq, moveq, mul, div, move, pea, ext, tst, lea, bcc,
  scc, bit_manip, bit_shift, link, unlk, rts, nop, illegal,
}

-- A data or an address register.
abbrev pub Numbered : RegisterType → Type 0
Numbered reg = reg < 16

-- Every register that an instruction names is a data or an address register.
abbrev pub Names : Class → Type 0
Names (add f) = Numbered f.dest_reg × Numbered f.src_reg
Names (sub f) = Numbered f.dest_reg × Numbered f.src_reg
Names (and f) = Numbered f.dest_reg × Numbered f.src_reg
Names (or f) = Numbered f.dest_reg × Numbered f.src_reg
Names (eor f) = Numbered f.dest_reg × Numbered f.src_reg
Names (addx f) = Numbered f.dest_reg × Numbered f.src_reg
Names (subx f) = Numbered f.dest_reg × Numbered f.src_reg
Names (adda f) = Numbered f.dest_reg × Numbered f.src_reg
Names (suba f) = Numbered f.dest_reg × Numbered f.src_reg
Names (cmp f) = Numbered f.dest_reg × Numbered f.src_reg
Names (cmpa f) = Numbered f.dest_reg × Numbered f.src_reg
Names (addi f) = Numbered f.dest_reg
Names (subi f) = Numbered f.dest_reg
Names (andi f) = Numbered f.dest_reg
Names (ori f) = Numbered f.dest_reg
Names (eori f) = Numbered f.dest_reg
Names (cmpi f) = Numbered f.dest_reg
Names (clr f) = Numbered f.dest_reg
Names (neg f) = Numbered f.dest_reg
Names (jmp f) = Numbered f.dest_reg
Names (jsr f) = Numbered f.dest_reg
Names (addq f) = Numbered f.dest_reg
Names (subq f) = Numbered f.dest_reg
Names (moveq f) = Numbered f.dest_reg
Names (mul f) = Numbered f.dest_reg × Numbered f.src_reg
Names (div f) = Numbered f.dest_reg × Numbered f.src_reg
Names (move f) = Numbered f.dest_reg × Numbered f.src_reg
Names (pea f) = Numbered f.addr_reg
Names (ext f) = Numbered f.addr_reg
Names (tst f) = Numbered f.addr_reg
Names (lea f) = Numbered f.src_reg × Numbered f.addr_reg
Names (bcc f) = Unit {0}
Names (scc f) = Numbered f.dest_reg
Names (bit_manip f) = Numbered f.src_reg × Numbered f.dest_reg
Names (bit_shift f) = Numbered f.addr_reg × Numbered f.shift_reg
Names (link reg) = Numbered reg
Names (unlk reg) = Numbered reg
Names rts = Unit {0}
Names nop = Unit {0}
Names illegal = Unit {0}

pub record Named (i : Instruction) : Type 0 where
  pub names : Names i.class
