-- ===== src/Instruction/Class/Fields.antt =====
-- The fields that the constructors of include/instructions/*.hpp fill. Classes whose fields come to the same share a record. `opcode`
-- is read by no `execute`, and `op_mode` only by the constructors, so neither is kept.
use m68k_emu.Base.{ℕ, Bool}
use m68k_emu.Defines.{DataSize, AddressingMode, RegisterType, Condition}

-- Add, Sub, And, Or, Eor, Addx, Subx, Adda, Suba, Cmp, Cmpa.
pub record Operands : Type 0 where
  pub dest_mode : AddressingMode
  pub dest_reg : RegisterType
  pub src_mode : AddressingMode
  pub src_reg : RegisterType
  pub data_size : DataSize

-- Addi, Subi, Andi, Ori, Eori, Cmpi, Clr, Neg, Jmp, Jsr.
pub record Dest : Type 0 where
  pub dest_mode : AddressingMode
  pub dest_reg : RegisterType
  pub data_size : DataSize

-- Addq, Subq, Moveq.
pub record Quick : Type 0 where
  pub dest_mode : AddressingMode
  pub dest_reg : RegisterType
  pub imm_data : ℕ
  pub data_size : DataSize

-- Mul, Div.
pub record Product : Type 0 where
  pub is_signed : Bool
  pub dest_mode : AddressingMode
  pub dest_reg : RegisterType
  pub src_mode : AddressingMode
  pub src_reg : RegisterType
  pub data_size : DataSize

pub record Move : Type 0 where
  pub dest_mode : AddressingMode
  pub dest_reg : RegisterType
  pub src_mode : AddressingMode
  pub src_reg : RegisterType
  pub data_size : DataSize
  pub is_movea : Bool

-- Pea, Ext, and `ea_mode`, `ea_reg` of Tst.
pub record Address : Type 0 where
  pub addr_mode : AddressingMode
  pub addr_reg : RegisterType
  pub data_size : DataSize

pub record Lea : Type 0 where
  pub src_mode : AddressingMode
  pub src_reg : RegisterType
  pub addr_reg : RegisterType
  pub data_size : DataSize

pub record Bcc : Type 0 where
  pub condition : Condition
  pub displacement_8 : ℕ
  pub data_size : DataSize

pub record Scc : Type 0 where
  pub dest_mode : AddressingMode
  pub dest_reg : RegisterType
  pub condition : Condition

pub data BitManipType : Type 0 where
  btst bchg bclr bset : BitManipType

pub record BitManip : Type 0 where
  pub src_mode : AddressingMode
  pub src_reg : RegisterType
  pub dest_mode : AddressingMode
  pub dest_reg : RegisterType
  pub instruction_type : BitManipType
  pub data_bits_modulo : ℕ
  pub data_size : DataSize

pub data BitShiftType : Type 0 where
  arithmetic logical rotate_extended rotate : BitShiftType

pub record BitShift : Type 0 where
  pub addr_mode : AddressingMode
  pub addr_reg : RegisterType
  pub shift_reg : RegisterType
  pub imm_shift : ℕ
  pub direction_left : Bool
  pub is_imm : Bool
  pub is_memory : Bool
  pub instruction_type : BitShiftType
  pub data_size : DataSize
