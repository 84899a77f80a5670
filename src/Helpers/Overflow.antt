-- ===== src/Helpers/Overflow.antt =====
-- `IS_OVERFLOW` and `IS_CARRY` of include/helpers.hpp against the integers that words stand for.
use m68k_emu.Base.{
  ℕ, ◌+◌, ◌-◌, ◌%◌, ◌≤◌, ◌<◌, ◌≡◌, ◌↔◌, true, false, not, ◌&&◌, ltb, leb, u32, if◌then◌else◌, arith,
}
use m68k_emu.Base.Int.{ℤ, pos, negsuc, ◌+ℤ◌, ◌-ℤ◌}
use m68k_emu.Defines.{DataSize, byte, word, long}
use m68k_emu.Helpers.{is_overflow}
use m68k_emu.Helpers.Masks.{msb_8_lem, msb_16_lem, msb_32_lem}
use m68k_emu.Helpers.Flags.{range, half}

-- The integer that a word of a size stands for.
abbrev pub to_signed : DataSize → ℕ → ℤ
to_signed size v = if ltb v (half size) then pos v else negsuc (range size - v - 1)

-- The overflow test, read from the two words: equal signs, and a sum of the other sign.
pub is_overflow_lem :
    (a b : ℕ) (size : DataSize)
    → a < range size
    → b < range size
    → is_overflow a b size ≡ (
        if ltb a (half size)
        then ltb b (half size) && leb (half size) (a + b)
        else not (ltb b (half size)) && ltb (a + b) (range size + half size))
unfolding is_overflow
is_overflow_lem a b byte ha hb =
    ground (arith, msb_8_lem a, msb_8_lem b, msb_8_lem (u32 (u32 a + u32 b)))
is_overflow_lem a b word ha hb =
    ground (arith, msb_16_lem a, msb_16_lem b, msb_16_lem (u32 (u32 a + u32 b)))
is_overflow_lem a b long ha hb =
    ground (arith, msb_32_lem a, msb_32_lem b, msb_32_lem (u32 (u32 a + u32 b)))

-- For two words of a size, the overflow test is false exactly when the wrapped sum stands for the
-- sum of the integers that the two stand for.
pub is_overflow-false_iff :
    (a b : ℕ) (size : DataSize)
    → a < range size
    → b < range size
    → (is_overflow a b size ≡ false)
      ↔ (to_signed size ((a + b) % range size) ≡ to_signed size a +ℤ to_signed size b)
unfolding ◌+ℤ◌
is_overflow-false_iff a b byte ha hb = rw (is_overflow_lem a b byte ha hb) (ground arith)
is_overflow-false_iff a b word ha hb = rw (is_overflow_lem a b word ha hb) (ground arith)
is_overflow-false_iff a b long ha hb = rw (is_overflow_lem a b long ha hb) (ground arith)

-- Two words that stand for numbers from zero up, with a sum from half the range up, make the
-- overflow test true, but their difference is in range, so subtracting one from the other is exact.
pub is_overflow_difference :
    (a b : ℕ) (size : DataSize)
    → a < half size
    → b < half size
    → half size ≤ a + b
    → (is_overflow a b size ≡ true)
      × (to_signed size ((b + range size - a) % range size) ≡ to_signed size b -ℤ to_signed size a)
unfolding ◌-ℤ◌
is_overflow_difference a b byte ha hb h =
    (rw (is_overflow_lem a b byte (omega arith) (omega arith)) (ground arith), ground arith)
is_overflow_difference a b word ha hb h =
    (rw (is_overflow_lem a b word (omega arith) (omega arith)) (ground arith), ground arith)
is_overflow_difference a b long ha hb h =
    (rw (is_overflow_lem a b long (omega arith) (omega arith)) (ground arith), ground arith)
