-- ===== src/Helpers/Masks.antt =====
-- The masks of include/helpers.hpp as remainders and quotients.
use m68k_emu.Base.{ℕ, ◌*◌, ◌/◌, ◌%◌, ◌^◌, ◌<◌, ◌≡◌, arith}
use m68k_emu.Base.Bits.{bit_and_low, bit_and_high, bit_and_digit, bit_and-zero}
use m68k_emu.Helpers.{
  mask_8, mask_16, mask_32, mask_above_8, mask_above_16, mask_above_32, mask_addr, msb_8, msb_16,
  msb_32,
}

pub mask_8_lem : (v : ℕ) → mask_8 v ≡ v % 2 ^ 8
unfolding mask_8
mask_8_lem v = bit_and_low 8 v

pub mask_16_lem : (v : ℕ) → mask_16 v ≡ v % 2 ^ 16
unfolding mask_16
mask_16_lem v = bit_and_low 16 v

pub mask_32_lem : (v : ℕ) → mask_32 v ≡ v % 2 ^ 32
unfolding mask_32
mask_32_lem v = bit_and_low 32 v

pub mask_addr_lem : (v : ℕ) → mask_addr v ≡ v % 2 ^ 24
unfolding mask_addr
mask_addr_lem v = bit_and_low 24 v

pub mask_above_8_lem : (v : ℕ) → v < 2 ^ 32 → mask_above_8 v ≡ v / 2 ^ 8 * 2 ^ 8
unfolding mask_above_8
mask_above_8_lem v h = bit_and_high 8 24 v (omega arith)

pub mask_above_16_lem : (v : ℕ) → v < 2 ^ 32 → mask_above_16 v ≡ v / 2 ^ 16 * 2 ^ 16
unfolding mask_above_16
mask_above_16_lem v h = bit_and_high 16 16 v (omega arith)

pub mask_above_32_lem : (v : ℕ) → mask_above_32 v ≡ 0
unfolding mask_above_32
mask_above_32_lem v = bit_and-zero v

pub msb_8_lem : (v : ℕ) → msb_8 v ≡ v / 2 ^ 7 % 2 * 2 ^ 7
unfolding msb_8
msb_8_lem v = bit_and_digit 7 v

pub msb_16_lem : (v : ℕ) → msb_16 v ≡ v / 2 ^ 15 % 2 * 2 ^ 15
unfolding msb_16
msb_16_lem v = bit_and_digit 15 v

pub msb_32_lem : (v : ℕ) → msb_32 v ≡ v / 2 ^ 31 % 2 * 2 ^ 31
unfolding msb_32
msb_32_lem v = bit_and_digit 31 v
