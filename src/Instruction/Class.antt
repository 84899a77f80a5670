-- ===== src/Instruction/Class.antt =====
-- The classes of include/instructions/*.hpp, and what the base class `Instruction` adds. Their fields
-- are in `Instruction/Class/Fields`.
mod Fields
pub use Fields.*
use m68k_emu.Base.{Bool}
use m68k_emu.Defines.{RegisterType}

abbrev pub Add : Type 0
Add = Operands

abbrev pub Sub : Type 0
Sub = Operands

abbrev pub And : Type 0
And = Operands

abbrev pub Or : Type 0
Or = Operands

abbrev pub Eor : Type 0
Eor = Operands

abbrev pub Addx : Type 0
Addx = Operands

abbrev pub Subx : Type 0
Subx = Operands

abbrev pub Adda : Type 0
Adda = Operands

abbrev pub Suba : Type 0
Suba = Operands

abbrev pub Cmp : Type 0
Cmp = Operands

abbrev pub Cmpa : Type 0
Cmpa = Operands

abbrev pub Addi : Type 0
Addi = Dest

abbrev pub Subi : Type 0
Subi = Dest

abbrev pub Andi : Type 0
Andi = Dest

abbrev pub Ori : Type 0
Ori = Dest

abbrev pub Eori : Type 0
Eori = Dest

abbrev pub Cmpi : Type 0
Cmpi = Dest

abbrev pub Clr : Type 0
Clr = Dest

abbrev pub Neg : Type 0
Neg = Dest

abbrev pub Jmp : Type 0
Jmp = Dest

abbrev pub Jsr : Type 0
Jsr = Dest

abbrev pub Addq : Type 0
Addq = Quick

abbrev pub Subq : Type 0
Subq = Quick

abbrev pub Moveq : Type 0
Moveq = Quick

abbrev pub Mul : Type 0
Mul = Product

abbrev pub Div : Type 0
Div = Product

abbrev pub Pea : Type 0
Pea = Address

abbrev pub Ext : Type 0
Ext = Address

abbrev pub Tst : Type 0
Tst = Address

-- The size of `Link` is always a word, so its register is all that it keeps.
abbrev pub Link : Type 0
Link = RegisterType

abbrev pub Unlk : Type 0
Unlk = RegisterType

pub data Class : Type 0 where
  add : Add → Class
  sub : Sub → Class
  and : And → Class
  or : Or → Class
  eor : Eor → Class
  addx : Addx → Class
  subx : Subx → Class
  adda : Adda → Class
  suba : Suba → Class
  cmp : Cmp → Class
  cmpa : Cmpa → Class
  addi : Addi → Class
  subi : Subi → Class
  andi : Andi → Class
  ori : Ori → Class
  eori : Eori → Class
  cmpi : Cmpi → Class
  clr : Clr → Class
  neg : Neg → Class
  jmp : Jmp → Class
  jsr : Jsr → Class
  addq : Addq → Class
  subq : Subq → Class
  moveq : Moveq → Class
  mul : Mul → Class
  div : Div → Class
  pea : Pea → Class
  ext : Ext → Class
  tst : Tst → Class
  link : Link → Class
  unlk : Unlk → Class
  move : Move → Class
  lea : Lea → Class
  bcc : Bcc → Class
  scc : Scc → Class
  bit_manip : BitManip → Class
  bit_shift : BitShift → Class
  rts nop illegal : Class

-- An object: `is_valid` of the base class, and the derived class.
pub record Instruction : Type 0 where
  pub is_valid : Bool
  pub class : Class
