-- ===== src/Instruction.antt =====
-- include/instructions/instruction.hpp and src/instructions/instruction.cpp: how the parts of an
-- opcode name an addressing mode, a register and a condition. Each class of
-- include/instructions/*.hpp has a child module with its constructor and its `execute`.

pub mod Class
pub mod Common
pub mod FlagLaws
pub mod RegisterForms
pub mod Subroutine
pub mod Numbers
pub mod Digits
pub mod ShiftCounts
pub mod Products
pub mod Quotients
pub mod Branches
pub mod Frames
pub mod Add
pub mod Adda
pub mod Addi
pub mod Addq
pub mod Addx
pub mod And
pub mod Andi
pub mod Bcc
pub mod BitManip
pub mod BitShift
pub mod Clr
pub mod Cmp
pub mod Cmpa
pub mod Cmpi
pub mod Div
pub mod Eor
pub mod Eori
pub mod Ext
pub mod Illegal
pub mod Jmp
pub mod Jsr
pub mod Lea
pub mod Link
pub mod Move
pub mod Moveq
pub mod Mul
pub mod Neg
pub mod Nop
pub mod Or
pub mod Ori
pub mod Pea
pub mod Rts
pub mod Scc
pub mod Sub
pub mod Suba
pub mod Subi
pub mod Subq
pub mod Subx
pub mod Tst
pub mod Unlk
use m68k_emu.Base.{ℕ, ◌+◌, ◌<◌, bit_and, ltb, ◌==◌, if◌then◌else◌, Option, none, some}
use m68k_emu.Defines.{
  DataSize, byte, word, long, AddressingMode, direct_data, direct_addr, indirect,
  indirect_postincrement, indirect_predecrement, indirect_displacement, indirect_index,
  pc_displacement, pc_index, abs_word, abs_long, immediate, unknown, RegisterType, Condition,
  cond_true, cond_false, higher, lower_same, carry_clear, carry_set, not_equal, equal,
  overflow_clear, overflow_set, plus, minus, greater_equal, less_than, greater_than, less_equal,
}

-- `static_cast<AddressingMode>` at the numbers below 7.
abbrev cast_mode : ℕ → AddressingMode
cast_mode n =
    if n == 0
    then direct_data
    else if n == 1
    then direct_addr
    else if n == 2
    then indirect
    else if n == 3
    then indirect_postincrement
    else if n == 4
    then indirect_predecrement
    else if n == 5
    then indirect_displacement
    else indirect_index

unfoldable pub get_addressing_mode : ℕ → ℕ → AddressingMode
get_addressing_mode part_mode part_reg =
    if ltb part_mode 7
    then cast_mode part_mode
    else if part_reg == 0
    then abs_word
    else if part_reg == 1
    then abs_long
    else if part_reg == 2
    then pc_displacement
    else if part_reg == 3
    then pc_index
    else if part_reg == 4
    then immediate
    else unknown

unfoldable pub get_register_type : ℕ → ℕ → RegisterType
get_register_type part_mode part_reg = if part_mode == 0 then part_reg else part_reg + 8

-- `static_cast<Condition>` at the numbers below 16.
abbrev cast_condition : ℕ → Condition
cast_condition n =
    if n == 0
    then cond_true
    else if n == 1
    then cond_false
    else if n == 2
    then higher
    else if n == 3
    then lower_same
    else if n == 4
    then carry_clear
    else if n == 5
    then carry_set
    else if n == 6
    then not_equal
    else if n == 7
    then equal
    else if n == 8
    then overflow_clear
    else if n == 9
    then overflow_set
    else if n == 10
    then plus
    else if n == 11
    then minus
    else if n == 12
    then greater_equal
    else if n == 13
    then less_than
    else if n == 14
    then greater_than
    else less_equal

unfoldable pub get_condition : ℕ → Condition
get_condition cond_part = cast_condition (bit_and cond_part 0xf)
