-- ===== src/Helpers/Flags.antt =====
-- What the flag tests of include/helpers.hpp mean for words of each size.
use m68k_emu.Base.{ℕ, ◌%◌, ◌^◌, ◌≡◌, leb, ◌==◌, arith}
use m68k_emu.Defines.{DataSize, byte, word, long}
use m68k_emu.Helpers.{is_negative, is_zero, is_carry}
use m68k_emu.Helpers.Masks.{mask_8_lem, mask_16_lem, mask_32_lem, msb_8_lem, msb_16_lem, msb_32_lem}

-- `2 ^ (8 * bytes size)`, the number of words of a size.
abbrev pub range : DataSize → ℕ
range byte = 2 ^ 8
range word = 2 ^ 16
range long = 2 ^ 32

-- A word is negative as a signed number from half its range up.
abbrev pub half : DataSize → ℕ
half byte = 2 ^ 7
half word = 2 ^ 15
half long = 2 ^ 31

pub is_zero_lem : (v : ℕ) (size : DataSize) → is_zero v size ≡ (v % range size == 0)
unfolding is_zero
is_zero_lem v byte = rw (mask_8_lem v)
is_zero_lem v word = rw (mask_16_lem v)
is_zero_lem v long = rw (mask_32_lem v)

pub is_carry_lem : (v : ℕ) (size : DataSize) → is_carry v size ≡ leb (range size) v
unfolding is_carry
is_carry_lem v byte = rw (mask_8_lem v) (ground arith)
is_carry_lem v word = rw (mask_16_lem v) (ground arith)
is_carry_lem v long = rw (mask_32_lem v) (ground arith)

pub is_negative_lem :
    (v : ℕ) (size : DataSize) → is_negative v size ≡ leb (half size) (v % range size)
unfolding is_negative
is_negative_lem v byte = rw (msb_8_lem v) (ground arith)
is_negative_lem v word = rw (msb_16_lem v) (ground arith)
is_negative_lem v long = rw (msb_32_lem v) (ground arith)
