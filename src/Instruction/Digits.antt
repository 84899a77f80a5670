-- ===== src/Instruction/Digits.antt =====
-- The digit that src/instructions/bit_manip.cpp tests and changes.
use native.Mathlib.Nat.{
  add-mul, mul-add-div_right, mul-add-mod_self_right, one-le-pow, mod-lt, pow-suc, mul-le-mul_right,
  div-lt_iff_lt-mul, div-eq_of_lt, mod-eq_of_lt,
}
use m68k_emu.Base.{
  ℕ, zero, suc, ◌+◌, ◌-◌, ◌*◌, ◌/◌, ◌%◌, ◌^◌, ◌<◌, ◌≤◌, ◌≡◌, ap, sym, arith, refl, u32, truth,
  bit_and, ◌>>>◌,
}
use m68k_emu.Base.Bits.{bit_and_clear, bit_and_low, bit_or_set}
use m68k_emu.Registers.Flags.{put_digit}
use m68k_emu.Instruction.Class.{BitManipType, btst, bchg, bclr, bset}
use m68k_emu.Instruction.BitManip.{manipulate, cleared, with_bit}

pow_sum : (m k : ℕ) → 2 ^ m * 2 ^ k ≡ 2 ^ (m + k)
pow_sum m zero = let e : m + 0 ≡ m = omega arith in omega (arith, ap (λ k. 2 ^ k) e)
pow_sum m (suc k) =
    let e : m + suc k ≡ suc (m + k) = omega arith in
    omega
      (arith, ap (λ t. 2 ^ m * t) (pow-suc 2 k), pow_sum m k, pow-suc 2 (m + k), ap (λ i. 2 ^ i) e)

-- A digit in place, read from a number above its place, itself, and a number below.
digit_high : (q b P r : ℕ) → r < P → (q * 2 * P + b * P + r) / P ≡ q * 2 + b
digit_high q b P r h =
    rw (sym (add-mul (q * 2) b P))
      (omega (arith, mul-add-div_right {m = P} (omega arith) (q * 2 + b) r, div-eq_of_lt h))

digit_low : (q b P r : ℕ) → r < P → (q * 2 * P + b * P + r) % P ≡ r
digit_low q b P r h =
    rw (sym (add-mul (q * 2) b P))
      (omega (arith, mul-add-mod_self_right (q * 2 + b) P r, mod-eq_of_lt h))

bounded : (q b P r N : ℕ) → r < P → b < 2 → q < N → q * 2 * P + b * P + r < N * 2 * P
bounded q zero P r N hr hb hq = omega (arith, mul-le-mul_right P hq)
bounded q (suc zero) P r N hr hb hq = omega (arith, mul-le-mul_right P hq)
bounded q (suc (suc b)) P r N hr hb hq = absurd (omega arith)

-- The number that has the digit at a place replaced, against the number before.
pub record Replaced (value shift b result : ℕ) : Type 0 where
  pub at : result / 2 ^ shift % 2 ≡ b
  pub above : result / 2 ^ shift / 2 ≡ value / 2 ^ shift / 2
  pub below : result % 2 ^ shift ≡ value % 2 ^ shift

put_digit_lem : (value shift b : ℕ) → b < 2 → Replaced value shift b (put_digit value shift b)
put_digit_lem value shift b h =
    let q = value / 2 ^ shift / 2 in
    let r : value % 2 ^ shift < 2 ^ shift = mod-lt value (one-le-pow shift 2 (omega arith)) in
    let high = digit_high q b (2 ^ shift) (value % 2 ^ shift) r in
    record {
      at = omega (arith, high);
      above = omega (arith, high);
      below = digit_low q b (2 ^ shift) (value % 2 ^ shift) r;
    }

power_parts : (n shift : ℕ) → shift < n → 2 ^ (n - suc shift) * 2 ^ shift * 2 ≡ 2 ^ n
power_parts n shift h =
    let e : suc (n - suc shift + shift) ≡ n = omega arith in
    omega
      (arith, pow_sum (n - suc shift) shift, pow-suc 2 (n - suc shift + shift), ap (λ i. 2 ^ i) e)

half_lt : (v P N : ℕ) → 1 ≤ P → v < N * P * 2 → v / P / 2 < N
half_lt v P N hp h =
    omega (arith, (div-lt_iff_lt-mul {k = P} {x = v} {y = N * 2} hp).1 (omega arith))

-- A word has fewer digits above a place.
above-lt :
    (value shift n : ℕ) → shift < n → value < 2 ^ n → value / 2 ^ shift / 2 < 2 ^ (n - suc shift)
above-lt value shift n hs h =
    half_lt value (2 ^ shift) (2 ^ (n - suc shift)) (one-le-pow shift 2 (omega arith))
      (omega (arith, power_parts n shift hs))

put_digit-lt :
    (value shift b : ℕ) → value < 2 ^ 32 → shift < 32 → b < 2 → put_digit value shift b < 2 ^ 32
put_digit-lt value shift b hv hs hb = omega (
  arith,
  bounded (value / 2 ^ shift / 2) b (2 ^ shift) (value % 2 ^ shift) (2 ^ (32 - suc shift))
      (mod-lt value (one-le-pow shift 2 (omega arith))) hb (above-lt value shift 32 hs hv),
  power_parts 32 shift hs,
)

mask_parts :
    (N P : ℕ) → 1 ≤ N → 1 ≤ P → N * P * 2 ≡ 2 ^ 64 → (N - 1) * 2 * P + (P - 1) ≡ 2 ^ 64 - 1 - P
mask_parts zero P hn hp e = absurd (omega arith)
mask_parts (suc n) P hn hp e =
    let k : suc n - 1 ≡ n = omega arith in
    let m : suc n ≡ n + 1 = omega arith in rw k (omega (arith, add-mul n 1 P, ap (λ x. x * P) m))

cleared_lem :
    (value shift : ℕ) → value < 2 ^ 32 → shift < 32 → cleared value shift ≡ put_digit value shift 0
cleared_lem value shift hv hs =
    let mask =
      mask_parts (2 ^ (64 - suc shift)) (2 ^ shift) (one-le-pow (64 - suc shift) 2 (omega arith))
        (one-le-pow shift 2 (omega arith)) (power_parts 64 shift (omega arith)) in
    rw (sym mask) (
      omega (
        arith,
        bit_and_clear shift (64 - suc shift) value
            (above-lt value shift 64 (omega arith) (omega arith)),
      ))

with_bit_lem : (value shift : ℕ) → with_bit value shift ≡ put_digit value shift 1
with_bit_lem value shift = omega (arith, bit_or_set shift value)

-- The digit that an instruction leaves where `b` stood.
abbrev pub left : BitManipType → ℕ → ℕ
left btst b = b
left bchg b = 1 - b
left bclr b = 0
left bset b = 1

-- The number that BitManip stores.
abbrev pub manipulated : BitManipType → (value shift : ℕ) → ℕ
manipulated t value shift = u32 (manipulate t value shift (truth (bit_and (value >>> shift) 1)))

unchanged :
    (value shift : ℕ) → value < 2 ^ 32 → Replaced value shift (value / 2 ^ shift % 2) (u32 value)
unchanged value shift h =
    let small : u32 value ≡ value = omega arith in
    rw small (record { at = refl; above = refl; below = refl })

put :
    (value shift b : ℕ)
    → value < 2 ^ 32
    → shift < 32
    → b < 2
    → Replaced value shift b (u32 (put_digit value shift b))
put value shift b hv hs hb =
    let small : u32 (put_digit value shift b) ≡ put_digit value shift b =
      omega (arith, put_digit-lt value shift b hv hs hb) in
    rw small (put_digit_lem value shift b hb)

inverted :
    (value shift d : ℕ)
    → value < 2 ^ 32
    → shift < 32
    → d < 2
    → bit_and (value / 2 ^ shift) 1 ≡ d
    → Replaced value shift (1 - d) (manipulated bchg value shift)
unfolding manipulate
inverted value shift zero hv hs hd e =
    rw (e, with_bit_lem value shift) (put value shift 1 hv hs (omega arith))
inverted value shift (suc zero) hv hs hd e =
    rw (e, cleared_lem value shift hv hs) (put value shift 0 hv hs (omega arith))
inverted value shift (suc (suc d)) hv hs hd e = absurd (omega arith)

-- BTST, BCHG, BCLR and BSET on a 32-bit word, at a place below 32: the digit at the place is left,
-- inverted, cleared and set, and all other digits are left.
pub manipulate_lem :
    (t : BitManipType) (value shift : ℕ)
    → value < 2 ^ 32
    → shift < 32
    → Replaced value shift (left t (value / 2 ^ shift % 2)) (manipulated t value shift)
unfolding manipulate
manipulate_lem btst value shift hv hs = unchanged value shift hv
manipulate_lem bchg value shift hv hs =
    inverted value shift (value / 2 ^ shift % 2) hv hs (omega arith)
      (bit_and_low 1 (value / 2 ^ shift))
manipulate_lem bclr value shift hv hs =
    rw (cleared_lem value shift hv hs) (put value shift 0 hv hs (omega arith))
manipulate_lem bset value shift hv hs =
    rw (with_bit_lem value shift) (put value shift 1 hv hs (omega arith))
