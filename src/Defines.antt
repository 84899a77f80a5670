-- ===== src/Defines.antt =====
-- include/defines.hpp and the enumerations of include/registers.hpp. The enumerators keep the
-- source's words without their prefix. A `RegisterType` is its number, since the code forms one
-- from three bits of an opcode and indexes the register array by it.
use m68k_emu.Base.{ℕ}

pub data DataSize : Type 0 where
  byte word long : DataSize

-- `static_cast<uint32_t>(size)`
abbrev pub bytes : DataSize → ℕ
bytes byte = 1
bytes word = 2
bytes long = 4

pub data AddressingMode : Type 0 where
  direct_data direct_addr : AddressingMode
  indirect indirect_postincrement indirect_predecrement : AddressingMode
  indirect_displacement indirect_index : AddressingMode
  pc_displacement pc_index : AddressingMode
  abs_word abs_long immediate unknown : AddressingMode

pub data Condition : Type 0 where
  cond_true cond_false higher lower_same carry_clear carry_set not_equal equal : Condition
  overflow_clear overflow_set plus minus : Condition
  greater_equal less_than greater_than less_equal : Condition

-- 16 MB
abbrev pub memory_size : ℕ
memory_size = 0x0100_0000

abbrev pub RegisterType : Type 0
RegisterType = ℕ

abbrev pub reg_d0 : RegisterType
reg_d0 = 0

abbrev pub reg_a0 : RegisterType
reg_a0 = 8

abbrev pub reg_a7 : RegisterType
reg_a7 = 15

abbrev pub reg_usp : RegisterType
reg_usp = 15

abbrev pub reg_ssp : RegisterType
reg_ssp = 16

abbrev pub reg_pc : RegisterType
reg_pc = 17

abbrev pub reg_sr : RegisterType
reg_sr = 18

abbrev pub regs_count : ℕ
regs_count = 19

pub data StatusRegisterFlag : Type 0 where
  flag_carry flag_overflow flag_zero flag_negative flag_extend : StatusRegisterFlag
  flag_supervisor flag_trace : StatusRegisterFlag

-- The place of the flag's digit: the enumerator is `1 << place`.
abbrev pub place : StatusRegisterFlag → ℕ
place flag_carry = 0
place flag_overflow = 1
place flag_zero = 2
place flag_negative = 3
place flag_extend = 4
place flag_supervisor = 13
place flag_trace = 15

-- What a call may throw: the standard exceptions that the code names. `undefined` is no
-- exception: it is an operation to which C++ gives no meaning.
pub data Error : Type 0 where
  length_error out_of_range invalid_argument undefined : Error

pub data Result (A : Type 0) : Type 0 where
  ok : A → Result A
  err : Error → Result A
