-- ===== src/Helpers.antt =====
-- include/helpers.hpp: masks, rotations and the tests from which the status flags are computed.
-- The templates are written for `uint32_t` or `uint64_t` by their callers; a mask never depends
-- on which.
pub mod Masks
pub mod Flags
pub mod Overflow
pub mod Rotate
use m68k_emu.Base.{ℕ, ◌+◌, ◌-◌, ◌^◌, Bool, true, false, not, ◌&&◌, bit_and, ltb, ◌==◌, truth, u32}
use m68k_emu.Defines.{
  DataSize, byte, word, long, AddressingMode, direct_data, direct_addr, indirect,
  indirect_postincrement, indirect_predecrement, pc_displacement, pc_index, immediate, unknown,
}

unfoldable pub msb_8 : ℕ → ℕ
msb_8 value = bit_and value 0x80

unfoldable pub msb_16 : ℕ → ℕ
msb_16 value = bit_and value 0x8000

unfoldable pub msb_32 : ℕ → ℕ
msb_32 value = bit_and value 0x8000_0000

unfoldable pub mask_8 : ℕ → ℕ
mask_8 value = bit_and value 0xff

unfoldable pub mask_16 : ℕ → ℕ
mask_16 value = bit_and value 0xffff

unfoldable pub mask_32 : ℕ → ℕ
mask_32 value = bit_and value 0xffff_ffff

-- `value & ~0xff` on uint32_t, and the two after it.
unfoldable pub mask_above_8 : ℕ → ℕ
mask_above_8 value = bit_and value 0xffff_ff00

unfoldable pub mask_above_16 : ℕ → ℕ
mask_above_16 value = bit_and value 0xffff_0000

unfoldable pub mask_above_32 : ℕ → ℕ
mask_above_32 value = bit_and value 0

unfoldable pub mask_low_byte : ℕ → ℕ
mask_low_byte value = bit_and value 0x0f

unfoldable pub mask_high_byte : ℕ → ℕ
mask_high_byte value = bit_and value 0xf0

unfoldable pub mask_addr : ℕ → ℕ
mask_addr value = bit_and value 0x00ff_ffff

-- `MASK` and `MASK_ABOVE` return `bool`; nothing calls them.
unfoldable pub mask : ℕ → DataSize → Bool
mask v byte = truth (mask_8 v)
mask v word = truth (mask_16 v)
mask v long = truth (mask_32 v)

unfoldable pub mask_above : ℕ → DataSize → Bool
mask_above v byte = truth (mask_above_8 v)
mask_above v word = truth (mask_above_16 v)
mask_above v long = truth (mask_above_32 v)

unfoldable pub is_memory_alterable : AddressingMode → Bool
is_memory_alterable unknown = false
is_memory_alterable pc_displacement = false
is_memory_alterable pc_index = false
is_memory_alterable immediate = false
is_memory_alterable _ = true

unfoldable pub is_data_alterable : AddressingMode → Bool
is_data_alterable unknown = false
is_data_alterable direct_addr = false
is_data_alterable pc_displacement = false
is_data_alterable pc_index = false
is_data_alterable immediate = false
is_data_alterable _ = true

unfoldable pub is_control_addr : AddressingMode → Bool
is_control_addr unknown = false
is_control_addr direct_data = false
is_control_addr direct_addr = false
is_control_addr indirect_postincrement = false
is_control_addr indirect_predecrement = false
is_control_addr immediate = false
is_control_addr _ = true

unfoldable pub is_negative : ℕ → DataSize → Bool
is_negative v byte = truth (msb_8 v)
is_negative v word = truth (msb_16 v)
is_negative v long = truth (msb_32 v)

unfoldable pub is_zero : ℕ → DataSize → Bool
is_zero v byte = mask_8 v == 0
is_zero v word = mask_16 v == 0
is_zero v long = mask_32 v == 0

unfoldable pub is_overflow : ℕ → ℕ → DataSize → Bool
is_overflow a b byte = msb_8 a == msb_8 b && not (msb_8 a == msb_8 (u32 (u32 a + u32 b)))
is_overflow a b word = msb_16 a == msb_16 b && not (msb_16 a == msb_16 (u32 (u32 a + u32 b)))
is_overflow a b long = msb_32 a == msb_32 b && not (msb_32 a == msb_32 (u32 (u32 a + u32 b)))

-- `v > MASK(v)`
unfoldable pub is_carry : ℕ → DataSize → Bool
is_carry v byte = ltb (mask_8 v) v
is_carry v word = ltb (mask_16 v) v
is_carry v long = ltb (mask_32 v) v
