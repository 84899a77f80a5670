-- ===== src/Instruction/BitShift.antt =====
-- src/instructions/bit_shift.cpp: the shifts and rotations of registers and memory words. The
-- computed value goes to the flags only; `execute` has no call that stores it.
use m68k_emu.Base.{
  ℕ, ⊤, Bool, true, false, not, ◌&&◌, ◌||◌, ◌+◌, ◌-◌, ◌%◌, bit_and, bit_or, ◌>>>◌, ◌<<<◌, ◌==◌,
  truth, if◌then◌else◌, u8,
}
use m68k_emu.Defines.{
  DataSize, byte, word, long, direct_data, reg_d0, flag_carry, flag_overflow, flag_zero,
  flag_negative, flag_extend,
}
use m68k_emu.Helpers.{is_memory_alterable, is_negative, is_zero}
use m68k_emu.Helpers.Rotate.{lsl, lsr, rol_at, ror_at, rol, ror, rest_of, width}
use m68k_emu.CpuState.{Action, pure, lift, get_flag, set_flag, ◌>>=◌, ◌>>◌}
use m68k_emu.CpuState.Operands.{get_data}
use m68k_emu.CpuState.Silent.{get_data_silent}
use m68k_emu.Instruction.{get_addressing_mode, get_register_type}
use m68k_emu.Instruction.Class.{
  Instruction, BitShift, BitShiftType, arithmetic, logical, rotate_extended, rotate, bit_shift,
}
use m68k_emu.Instruction.Common.{part1, part2, part3, advance}
use m68k_emu.Base.{◌++◌, ◌∷◌, []}
use m68k_emu.Base.Text.{Text, codes}
use m68k_emu.Disassembler.{two_operands_text, number_operand}

-- The switch on `data_size_part`; 3 is the memory form, which shifts words.
abbrev size_of_shift : ℕ → DataSize
size_of_shift n = if n == 0 then byte else if n == 1 then word else if n == 2 then long else word

-- `static_cast<InstructionType>` at the numbers below 4: AS, LS, ROX and RO.
abbrev cast_type : ℕ → BitShiftType
cast_type n =
    if n == 0
    then arithmetic
    else if n == 1
    then logical
    else if n == 2
    then rotate_extended
    else rotate

unfoldable pub create : ℕ → Instruction
create opcode =
    let is_memory = part2 opcode 6 == 3 in
    let is_imm = part1 opcode 5 == 1 in
    let rotation_part = part3 opcode 9 in
    let ea_mode = get_addressing_mode (part3 opcode 3) (part3 opcode 0) in
    record {
      is_valid = not is_memory || is_memory_alterable ea_mode;
      class = bit_shift (record {
        addr_mode = if is_memory then ea_mode else get_addressing_mode 0 0;
        addr_reg =
            if is_memory
            then get_register_type (part3 opcode 3) (part3 opcode 0)
            else get_register_type 0 (part3 opcode 0);
        shift_reg = if is_memory || is_imm then reg_d0 else get_register_type 0 rotation_part;
        imm_shift = if is_memory then 1 else if is_imm then u8 (rotation_part + 1) else 0;
        direction_left = part1 opcode 8 == 1;
        is_imm = is_imm;
        is_memory = is_memory;
        instruction_type = cast_type (bit_and (opcode >>> (if is_memory then 3 else 9)) 0x3);
        data_size = size_of_shift (part2 opcode 6);
      });
    }

unfoldable pub set_carry_extend : Bool → Action ⊤
set_carry_extend value = do set_flag flag_carry value; set_flag flag_extend value

unfoldable pub shift_left : ℕ → ℕ → Action ℕ
shift_left addr_data shift = do
  result ← lift (lsl addr_data shift)
  set_carry_extend (truth (bit_and result 1))
  pure result

abbrev pub ones : ℕ
ones = 0xffff_ffff_ffff_ffff

-- The carry is the digit that leaves last, `(addr_data >> (shift - 1)) & 1`.
unfoldable pub shift_right : Bool → ℕ → ℕ → Action ℕ
shift_right fill addr_data shift = do
  shifted ← lift (lsr addr_data shift)
  kept ← lift (lsr ones shift)
  last ← lift (lsr addr_data (rest_of shift 1))
  set_carry_extend (truth (bit_and last 1))
  pure (if fill then bit_or shifted (ones - kept) else shifted)

-- The place from which the extended rotations take the flags.
abbrev pub flag_shift : DataSize → ℕ
flag_shift byte = 0
flag_shift word = 8
flag_shift long = 24

unfoldable pub rotate_extend_left : DataSize → ℕ → ℕ → Action ℕ
rotate_extend_left size addr_data shift = do
  flag ← get_flag flag_carry
  let carry = if flag then 1 else 0
  result ← lift (rol_at (width size + 1) (bit_or addr_data (carry <<< width size)) shift)
  set_carry_extend (truth (result >>> flag_shift size))
  pure result

-- The source combines `result`, which is still 0, and not `addr_data`.
unfoldable pub rotate_extend_right : DataSize → ℕ → ℕ → Action ℕ
rotate_extend_right size addr_data shift = do
  flag ← get_flag flag_carry
  let carry = if flag then 1 else 0
  result ← lift (ror_at (width size + 1) (bit_or 0 (carry <<< width size)) shift)
  set_carry_extend (truth (result >>> flag_shift size))
  pure result

unfoldable pub rotate_left : DataSize → ℕ → ℕ → Action ℕ
rotate_left size addr_data shift = do
  result ← lift (rol addr_data shift size)
  leaving ← lift (lsr addr_data (rest_of 8 shift))
  set_flag flag_carry (truth leaving)
  pure (if result then 1 else 0)

unfoldable pub rotate_right : DataSize → ℕ → ℕ → Action ℕ
rotate_right size addr_data shift = do
  result ← lift (ror addr_data shift size)
  leaving ← lift (lsl addr_data (rest_of 9 shift))
  set_flag flag_carry (truth leaving)
  pure (if result then 1 else 0)

unfoldable pub shifted : BitShiftType → Bool → DataSize → ℕ → ℕ → Action ℕ
shifted arithmetic true size addr_data shift = shift_left addr_data shift
shifted arithmetic false size addr_data shift =
    shift_right (is_negative addr_data size) addr_data shift
shifted logical true size addr_data shift = shift_left addr_data shift
shifted logical false size addr_data shift = shift_right false addr_data shift
shifted rotate_extended true size addr_data shift = rotate_extend_left size addr_data shift
shifted rotate_extended false size addr_data shift = rotate_extend_right size addr_data shift
shifted rotate true size addr_data shift = rotate_left size addr_data shift
shifted rotate false size addr_data shift = rotate_right size addr_data shift

unfoldable pub shift_count : BitShift → Action ℕ
shift_count f =
    if not f.is_memory && not f.is_imm
    then (do read ← get_data direct_data f.shift_reg f.data_size; pure (read % 64))
    else pure f.imm_shift

unfoldable pub execute : BitShift → Action ⊤
execute f = do
  advance
  addr_data ← get_data_silent f.addr_mode f.addr_reg f.data_size
  shift ← shift_count f
  result ← shifted f.instruction_type f.direction_left f.data_size addr_data shift
  set_flag flag_negative (is_negative result f.data_size)
  set_flag flag_zero (is_zero result f.data_size)
  set_flag flag_overflow false

abbrev pub type_str : BitShiftType → Text
type_str arithmetic = codes "as"
type_str logical = codes "ls"
type_str rotate_extended = codes "rox"
type_str rotate = codes "ro"

abbrev pub instruction_str : BitShiftType → Bool → Text
instruction_str type direction_left =
    type_str type ++ (if direction_left then codes "l" else codes "r")

-- `imm_shift` is a uint8_t, which `<<` prints as the character of that code.
unfoldable pub disassembly : BitShift → Action Text
disassembly f = do
  advance
  if f.is_imm
      then number_operand (instruction_str f.instruction_type f.direction_left ++ codes " ")
          (f.imm_shift ∷ []) f.addr_mode f.addr_reg f.data_size
      else two_operands_text (instruction_str f.instruction_type f.direction_left ++ codes " ")
          direct_data f.shift_reg f.addr_mode f.addr_reg f.data_size
