-- ===== src/CpuState/Operands.antt =====
-- The operands of src/cpu_state.cpp: control addresses, reads, reads that change nothing, writes.
-- Address arithmetic is on uint32_t, but for the one sum of two signed offsets, which has no defined
-- value where it leaves the range of int32_t.
use m68k_emu.Base.{
  ℕ, Bool, not, xor, ltb, bit_and, ◌==◌, ◌&&◌, truth, if◌then◌else◌, add32, sub32, sext8, sext16,
  ◌>>>◌,
}
use m68k_emu.Defines.{
  DataSize, byte, word, long, bytes, AddressingMode, direct_data, direct_addr, indirect,
  indirect_postincrement, indirect_predecrement, indirect_displacement, indirect_index,
  pc_displacement, pc_index, abs_word, abs_long, immediate, unknown, RegisterType, reg_a7, reg_pc,
  Result, ok, err, undefined,
}
use m68k_emu.Helpers.{mask_8}
use m68k_emu.Instruction.{get_register_type}
use m68k_emu.Memory.{is_byte}
use m68k_emu.CpuState.{Action, pure, lift, get_register, set_register, get_memory, ◌>>=◌, ◌>>◌}

-- The register and the size that an extension word names, and its signed byte.
abbrev pub ext_reg : ℕ → RegisterType
ext_reg ext_word = get_register_type (bit_and ext_word 0x8000) (bit_and (ext_word >>> 12) 0x7)

abbrev pub ext_reg_size : ℕ → DataSize
ext_reg_size ext_word = if truth (bit_and (ext_word >>> 11) 0x1) then long else word

abbrev pub ext_offset : ℕ → ℕ
ext_offset ext_word = sext8 (bit_and ext_word 0xff)

abbrev pub widened : DataSize → ℕ → ℕ
widened word value = sext16 value
widened byte value = value
widened long value = value

-- `ext_reg_offset`: the index register, a word of it sign-extended.
unfoldable pub ext_reg_offset : ℕ → Action ℕ
ext_reg_offset ext_word = do
  value ← get_register (ext_reg ext_word) (ext_reg_size ext_word)
  pure (widened (ext_reg_size ext_word) value)

abbrev is_minus : ℕ → Bool
is_minus x = not (ltb x 0x8000_0000)

-- The sum of two int32_t patterns: past the range, it has not the sign that both have.
unfoldable pub signed_sum : ℕ → ℕ → Result ℕ
signed_sum a b =
    if not (xor (is_minus a) (is_minus b)) && xor (is_minus a) (is_minus (add32 a b))
    then err undefined
    else ok (add32 a b)

unfoldable pub get_control_address : AddressingMode → RegisterType → DataSize → Action ℕ
get_control_address indirect reg size = get_register reg long
get_control_address indirect_displacement reg size = do
  addr ← get_register reg long
  pc ← get_register reg_pc long
  offset ← get_memory pc word
  set_register reg_pc long (add32 pc (bytes word))
  pure (add32 addr (sext16 offset))
get_control_address indirect_index reg size = do
  addr ← get_register reg long
  pc ← get_register reg_pc long
  ext_word ← get_memory pc word
  index ← ext_reg_offset ext_word
  set_register reg_pc long (add32 pc (bytes word))
  offset ← lift (signed_sum index (ext_offset ext_word))
  pure (add32 addr offset)
get_control_address pc_displacement reg size = do
  pc ← get_register reg_pc long
  offset ← get_memory pc word
  set_register reg_pc long (add32 pc (bytes word))
  pure (add32 pc (sext16 offset))
get_control_address pc_index reg size = do
  pc ← get_register reg_pc long
  ext_word ← get_memory pc word
  index ← ext_reg_offset ext_word
  set_register reg_pc long (add32 pc (bytes word))
  pure (add32 (add32 pc index) (ext_offset ext_word))
get_control_address abs_word reg size = do
  pc ← get_register reg_pc long
  set_register reg_pc long (add32 pc (bytes word))
  get_memory pc word
get_control_address abs_long reg size = do
  pc ← get_register reg_pc long
  set_register reg_pc long (add32 pc (bytes long))
  get_memory pc long
get_control_address _ reg size = pure 0

-- A byte on the stack takes a word: `size` once, and one more for A7 and an odd size.
abbrev pub after : RegisterType → DataSize → ℕ → ℕ
after reg size addr =
    let next = add32 addr (bytes size) in
    if (reg == reg_a7) && is_byte size then add32 next 1 else next

abbrev pub before : RegisterType → DataSize → ℕ → ℕ
before reg size addr =
    let next = sub32 addr (bytes size) in
    if (reg == reg_a7) && is_byte size then sub32 next 1 else next

-- `size == SIZE_LONG ? SIZE_LONG : SIZE_WORD`
abbrev pub memory_size_of : DataSize → DataSize
memory_size_of long = long
memory_size_of byte = word
memory_size_of word = word

abbrev pub immediate_of : DataSize → ℕ → ℕ
immediate_of byte value = mask_8 value
immediate_of word value = value
immediate_of long value = value

unfoldable pub get_data : AddressingMode → RegisterType → DataSize → Action ℕ
get_data direct_addr reg size = get_register reg size
get_data direct_data reg size = get_register reg size
get_data indirect reg size = do addr ← get_register reg long; get_memory addr size
get_data indirect_postincrement reg size = do
  addr ← get_register reg long
  value ← get_memory addr size
  set_register reg long (after reg size addr)
  pure value
get_data indirect_predecrement reg size = do
  old ← get_register reg long
  let addr = before reg size old
  value ← get_memory addr size
  set_register reg long addr
  pure value
get_data indirect_displacement reg size = do
  addr ← get_register reg long
  pc ← get_register reg_pc long
  offset ← get_memory pc word
  set_register reg_pc long (add32 pc (bytes word))
  get_memory (add32 addr (sext16 offset)) size
get_data indirect_index reg size = do
  addr ← get_register reg long
  pc ← get_register reg_pc long
  ext_word ← get_memory pc word
  index ← ext_reg_offset ext_word
  set_register reg_pc long (add32 pc (bytes word))
  get_memory (add32 (add32 addr index) (ext_offset ext_word)) size
get_data pc_displacement reg size = do
  pc ← get_register reg_pc long
  offset ← get_memory pc word
  set_register reg_pc long (add32 pc (bytes word))
  get_memory (add32 pc (sext16 offset)) size
get_data pc_index reg size = do
  pc ← get_register reg_pc long
  ext_word ← get_memory pc word
  index ← ext_reg_offset ext_word
  set_register reg_pc long (add32 pc (bytes word))
  get_memory (add32 (add32 pc index) (ext_offset ext_word)) size
get_data abs_word reg size = do
  pc ← get_register reg_pc long
  addr ← get_memory pc word
  set_register reg_pc long (add32 pc (bytes word))
  get_memory addr size
get_data abs_long reg size = do
  pc ← get_register reg_pc long
  addr ← get_memory pc long
  set_register reg_pc long (add32 pc (bytes long))
  get_memory addr size
get_data immediate reg size = do
  pc ← get_register reg_pc long
  value ← get_memory pc (memory_size_of size)
  set_register reg_pc long (add32 pc (bytes (memory_size_of size)))
  pure (immediate_of size value)
get_data unknown reg size = pure 0
