-- ===== src/Instruction/Numbers.antt =====
-- The numbers that src/instructions/div.cpp computes without a sign.
use native.Mathlib.Nat.{mod-lt, div-add-mod, div-le_self}
use m68k_emu.Base.{ℕ, ◌≡◌, ◌+◌, ◌*◌, ◌/◌, ◌%◌, ◌^◌, ◌<◌, arith, false, u32, bit_or}
use m68k_emu.Base.Bits.{bit_or_split, zero-bit_or, bit_or-zero}
use m68k_emu.Instruction.Div

-- Two 16-bit numbers in the halves of a word.
pub bit_or_halves :
    (low high : ℕ)
    → low < 2 ^ 16
    → high < 2 ^ 16
    → bit_or low (u32 (high * 2 ^ 16)) ≡ high * 2 ^ 16 + low
bit_or_halves low high hl hh =
    let fits : u32 (high * 2 ^ 16) ≡ high * 2 ^ 16 + 0 = omega arith in
    rw fits (
      ground
        (arith, bit_or_split 0 high 16 low 0 hl (omega arith), bit_or-zero low, zero-bit_or high))

-- For 16-bit words and a divisor that is not zero, unsigned division puts in the low and the high
-- half of its result a quotient and a remainder: the quotient times the divisor and the remainder
-- make the dividend, and the remainder is below the divisor.
pub quotient_unsigned :
    (dest_data src_data : ℕ)
    → dest_data < 2 ^ 16
    → src_data < 2 ^ 16
    → 0 < src_data
    → (src_data * (Div.quotient false dest_data src_data % 2 ^ 16)
          + Div.quotient false dest_data src_data / 2 ^ 16
        ≡ dest_data)
      × (Div.quotient false dest_data src_data / 2 ^ 16 < src_data)
unfolding Div.quotient
quotient_unsigned dest_data src_data hd hs pos =
    let q : dest_data / src_data < 2 ^ 16 = omega (arith, div-le_self dest_data src_data) in
    let r : dest_data % src_data < src_data = mod-lt dest_data pos in
    halves (dest_data / src_data) (dest_data % src_data) q r (div-add-mod dest_data src_data)
  where
    halves :
        (low high : ℕ)
        → low < 2 ^ 16
        → high < src_data
        → src_data * low + high ≡ dest_data
        → (src_data * (bit_or low (u32 (high * 2 ^ 16)) % 2 ^ 16)
              + bit_or low (u32 (high * 2 ^ 16)) / 2 ^ 16
            ≡ dest_data)
          × (bit_or low (u32 (high * 2 ^ 16)) / 2 ^ 16 < src_data)
    halves low high hl hh e =
        let lo : (high * 2 ^ 16 + low) % 2 ^ 16 ≡ low = omega arith in
        let hi : (high * 2 ^ 16 + low) / 2 ^ 16 ≡ high = omega arith in
        rw (bit_or_halves low high hl (omega arith), lo, hi) (e, hh)
