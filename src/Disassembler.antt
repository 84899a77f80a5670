-- ===== src/Disassembler.antt =====
-- include/disassembler.hpp and src/disassembler.cpp: the text of registers, sizes, conditions and
-- operands. The `disassembly` method of a class is in that class's module.
-- A text is the list of its bytes. `std::hex` prints an int16_t as its 16-bit pattern, and an int
-- as its 32-bit pattern. The project asks for C++14, which does not order two operands of one
-- chain of `<<`; they are taken from left to right, as the tests of the repository expect and as
-- C++17 orders them.
pub mod Names
pub mod Length
pub mod Compares
pub mod Agreement
use m68k_emu.Base.{ℕ, ⊤, ◌++◌, ◌==◌, bit_and, ◌>>>◌, add32, sext8, sext16, u16, if◌then◌else◌}
use m68k_emu.Base.Text.{Text, codes, hex}
use m68k_emu.Defines.{
  DataSize, byte, word, long, bytes, AddressingMode, direct_data, direct_addr, indirect,
  indirect_postincrement, indirect_predecrement, indirect_displacement, indirect_index,
  pc_displacement, pc_index, abs_word, abs_long, immediate, unknown, RegisterType, reg_pc, reg_sr,
  Condition, cond_true, cond_false, higher, lower_same, carry_clear, carry_set, not_equal, equal,
  overflow_clear, overflow_set, plus, minus, greater_equal, less_than, greater_than, less_equal,
}
use m68k_emu.CpuState.{Action, pure, get_register, set_register, get_memory, ◌>>=◌, ◌>>◌}
use m68k_emu.CpuState.Operands.{ext_reg, memory_size_of, immediate_of}

-- `DISASSEMBLER::reg`
unfoldable pub reg : RegisterType → Text
reg r =
    if r == 0
    then codes "d0"
    else if r == 1
    then codes "d1"
    else if r == 2
    then codes "d2"
    else if r == 3
    then codes "d3"
    else if r == 4
    then codes "d4"
    else if r == 5
    then codes "d5"
    else if r == 6
    then codes "d6"
    else if r == 7
    then codes "d7"
    else if r == 8
    then codes "a0"
    else if r == 9
    then codes "a1"
    else if r == 10
    then codes "a2"
    else if r == 11
    then codes "a3"
    else if r == 12
    then codes "a4"
    else if r == 13
    then codes "a5"
    else if r == 14
    then codes "a6"
    else if r == 15
    then codes "a7"
    else if r == reg_pc
    then codes "pc"
    else if r == reg_sr
    then codes "sr"
    else codes "unknown reg"

unfoldable pub size_suffix : DataSize → Text
size_suffix byte = codes ".b"
size_suffix word = codes ".w"
size_suffix long = codes ".l"

unfoldable pub condition_suffix : Condition → Text
condition_suffix cond_true = codes "t"
condition_suffix cond_false = codes "f"
condition_suffix higher = codes "hi"
condition_suffix lower_same = codes "ls"
condition_suffix carry_clear = codes "cc"
condition_suffix carry_set = codes "cs"
condition_suffix not_equal = codes "ne"
condition_suffix equal = codes "eq"
condition_suffix overflow_clear = codes "vc"
condition_suffix overflow_set = codes "vs"
condition_suffix plus = codes "pl"
condition_suffix minus = codes "mi"
condition_suffix greater_equal = codes "ge"
condition_suffix less_than = codes "lt"
condition_suffix greater_than = codes "gt"
condition_suffix less_equal = codes "le"

-- The word or long word at PC, with PC moved past it.
unfoldable pub fetch : DataSize → Action ℕ
fetch size = do
  pc ← get_register reg_pc long
  value ← get_memory pc size
  set_register reg_pc long (add32 pc (bytes size))
  pure value

unfoldable pub effective_address : AddressingMode → RegisterType → DataSize → Action Text
effective_address direct_addr r size = pure (reg r)
effective_address direct_data r size = pure (reg r)
effective_address indirect r size = pure (codes "(" ++ (reg r ++ codes ")"))
effective_address indirect_postincrement r size = pure (codes "(" ++ (reg r ++ codes ")+"))
effective_address indirect_predecrement r size = pure (codes "-(" ++ (reg r ++ codes ")"))
effective_address indirect_displacement r size = do
  offset ← fetch word
  pure (codes "($" ++ (hex (u16 offset) ++ (codes "," ++ (reg r ++ codes ")"))))
effective_address indirect_index r size = do
  ext_word ← fetch word
  let offset = u16 (sext8 (bit_and ext_word 0xff))
  pure (
      codes "($"
      ++ (hex offset
          ++ (codes "," ++ (reg r ++ (codes "," ++ (reg (ext_reg ext_word) ++ codes ")"))))))
effective_address pc_displacement r size = do
  offset ← fetch word
  pure (codes "($" ++ (hex (add32 (sext16 offset) 2) ++ (codes "," ++ (reg reg_pc ++ codes ")"))))
effective_address pc_index r size = do
  ext_word ← fetch word
  let offset = add32 (sext8 (bit_and ext_word 0xff)) 2
  pure (
      codes "($"
      ++ (hex offset
          ++ (codes "," ++ (reg reg_pc ++ (codes "," ++ (reg (ext_reg ext_word) ++ codes ")"))))))
effective_address abs_word r size = do
  addr ← fetch word
  pure (codes "($" ++ (hex addr ++ codes ").w"))
effective_address abs_long r size = do
  addr ← fetch long
  pure (codes "($" ++ (hex addr ++ codes ").l"))
effective_address immediate r size = do
  value ← fetch (memory_size_of size)
  pure (codes "#$" ++ hex (immediate_of size value))
effective_address unknown r size = pure (codes "addreass mode unknown")

-- The name of an instruction with its size, then its operands.
unfoldable pub one_operand : Text → AddressingMode → RegisterType → DataSize → Action Text
one_operand name mode r size = do operand ← effective_address mode r size; pure (name ++ operand)

unfoldable pub two_operands_text :
    Text → AddressingMode → RegisterType → AddressingMode → RegisterType → DataSize → Action Text
two_operands_text name src_mode src_reg dest_mode dest_reg size = do
  src ← effective_address src_mode src_reg size
  dest ← effective_address dest_mode dest_reg size
  pure (name ++ (codes " " ++ (src ++ (codes ", " ++ dest))))

-- `#$`, a number and an operand.
unfoldable pub number_operand : Text → Text → AddressingMode → RegisterType → DataSize → Action Text
number_operand name number mode r size = do
  operand ← effective_address mode r size
  pure (name ++ (codes " #$" ++ (number ++ (codes ", " ++ operand))))
