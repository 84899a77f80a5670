-- ===== src/Instruction/Common.antt =====
-- What the constructors and the `execute` methods of src/instructions/*.cpp share.
use m68k_emu.Base.{
  ℕ, ⊤, Bool, true, false, ◌&&◌, bit_and, ◌>>>◌, ◌==◌, truth, if◌then◌else◌, add32, Option, none,
  some,
}
use m68k_emu.Defines.{
  DataSize, byte, word, long, bytes, direct_data, direct_addr, reg_pc, flag_carry, flag_overflow,
  flag_zero, flag_negative, flag_extend,
}
use m68k_emu.Helpers.{is_memory_alterable, is_negative, is_zero, is_overflow, is_carry}
use m68k_emu.CpuState.{Action, pure, get_register, set_register, set_flag, ◌>>=◌, ◌>>◌}
use m68k_emu.Instruction.{get_addressing_mode, get_register_type}
use m68k_emu.Instruction.Class.{Operands, Dest}

-- `(opcode >> shift) & 0x7` and the parts of one and two digits.
abbrev pub part3 : ℕ → ℕ → ℕ
part3 opcode shift = bit_and (opcode >>> shift) 0x7

abbrev pub part1 : ℕ → ℕ → ℕ
part1 opcode shift = bit_and (opcode >>> shift) 0x1

abbrev pub part2 : ℕ → ℕ → ℕ
part2 opcode shift = bit_and (opcode >>> shift) 0x3

-- The switch on `data_size_part`; `none` is its `default`, which clears `is_valid`.
abbrev pub size_of_part : ℕ → Option DataSize
size_of_part data_size_part =
    if data_size_part == 0
    then some byte
    else if data_size_part == 1
    then some word
    else if data_size_part == 2
    then some long
    else none

abbrev pub is_known : Option DataSize → Bool
is_known none = false
is_known (some size) = true

-- An instruction that is not valid never runs: the decoder puts `Illegal` in its place. The
-- size that its constructor leaves unset reads `byte` here.
abbrev pub or_unset : Option DataSize → DataSize
or_unset none = byte
or_unset (some size) = size

-- The fields of Add, Sub, And and Or: digit 8 tells which operand is the data register.
unfoldable pub two_operands : ℕ → Operands
two_operands opcode =
    let data_reg = get_register_type 0 (part3 opcode 9) in
    let ea_mode = get_addressing_mode (part3 opcode 3) (part3 opcode 0) in
    let ea_reg = get_register_type (part3 opcode 3) (part3 opcode 0) in
    let size = or_unset (size_of_part (part2 opcode 6)) in
    if truth (part1 opcode 8)
    then record {
      dest_mode = ea_mode;
      dest_reg = ea_reg;
      src_mode = direct_data;
      src_reg = data_reg;
      data_size = size;
    }
    else record {
      dest_mode = direct_data;
      dest_reg = data_reg;
      src_mode = ea_mode;
      src_reg = ea_reg;
      data_size = size;
    }

unfoldable pub two_operands_valid : ℕ → Bool
two_operands_valid opcode =
    (if truth (part1 opcode 8) then is_memory_alterable (two_operands opcode).dest_mode else true)
    && is_known (size_of_part (part2 opcode 6))

-- The fields of the instructions with an immediate operand, and of Clr and Neg.
unfoldable pub dest_operand : ℕ → Dest
dest_operand opcode = record {
  dest_mode = get_addressing_mode (part3 opcode 3) (part3 opcode 0);
  dest_reg = get_register_type (part3 opcode 3) (part3 opcode 0);
  data_size = or_unset (size_of_part (part2 opcode 6));
}

unfoldable pub dest_operand_valid : ℕ → Bool
dest_operand_valid opcode =
    is_memory_alterable (dest_operand opcode).dest_mode && is_known (size_of_part (part2 opcode 6))

-- The fields of Adda, Suba and Cmpa; the size has one digit, so each opcode is valid.
unfoldable pub address_operands : ℕ → Operands
address_operands opcode = record {
  dest_mode = direct_addr;
  dest_reg = get_register_type 1 (part3 opcode 9);
  src_mode = get_addressing_mode (part3 opcode 3) (part3 opcode 0);
  src_reg = get_register_type (part3 opcode 3) (part3 opcode 0);
  data_size = if part1 opcode 8 == 0 then word else long;
}

-- The three lines that each `execute` begins with: PC moves past the opcode.
unfoldable pub advance : Action ℕ
advance = do
  old ← get_register reg_pc long
  let pc = add32 old (bytes word)
  set_register reg_pc long pc
  pure pc

-- The flags of the additions and subtractions, in the order in which they are set.
unfoldable pub set_arithmetic_flags : ℕ → ℕ → ℕ → DataSize → Action ⊤
set_arithmetic_flags src_data dest_data result data_size = do
  set_flag flag_extend (is_carry result data_size)
  set_flag flag_negative (is_negative result data_size)
  set_flag flag_zero (is_zero result data_size)
  set_flag flag_overflow (is_overflow src_data dest_data data_size)
  set_flag flag_carry (is_carry result data_size)

-- The flags of the comparisons: the extend flag stays.
unfoldable pub set_compare_flags : ℕ → ℕ → ℕ → DataSize → Action ⊤
set_compare_flags src_data dest_data result data_size = do
  set_flag flag_negative (is_negative result data_size)
  set_flag flag_zero (is_zero result data_size)
  set_flag flag_overflow (is_overflow src_data dest_data data_size)
  set_flag flag_carry (is_carry result data_size)

-- The flags of the logical instructions.
unfoldable pub set_logic_flags : ℕ → DataSize → Action ⊤
set_logic_flags result data_size = do
  set_flag flag_negative (is_negative result data_size)
  set_flag flag_zero (is_zero result data_size)
  set_flag flag_overflow false
  set_flag flag_carry false
