-- ===== src/Instruction/Quotients.antt =====
-- The numbers that src/instructions/div.cpp computes with a sign.
use native.Mathlib.Nat.{mod-lt, div-add-mod, div-le_self, mul_comm, mul-le-mul_left}
use mathlib.Core.Bool.{xor}
use m68k_emu.Base.{
  ℕ, zero, suc, ◌+◌, ◌*◌, ◌/◌, ◌%◌, ◌^◌, ◌<◌, ◌≤◌, ◌≡◌, ◌≢◌, ◌⊎◌, inl, inr, ◌∙◌, arith, refl, ap,
  Bool, true, false, ltb, Bool-cases,
}
use m68k_emu.Base.Int.{int, ◌*ℤ◌, ◌+ℤ◌}
use m68k_emu.Defines.{word}
use m68k_emu.Helpers.Overflow.{to_signed}
use m68k_emu.Instruction.Div
use m68k_emu.Instruction.Div.{is_minus, magnitude, signed}
use m68k_emu.Instruction.Numbers.{bit_or_halves}

-- Signs multiply, and magnitudes multiply.
int_mul : (a b : Bool) (m n : ℕ) → int a m *ℤ int b n ≡ int (xor a b) (m * n)
unfolding ◌*ℤ◌ xor
int_mul false false m n = ground arith
int_mul false true m zero = ground arith
int_mul false true m (suc n) = ground arith
int_mul true false zero n = ground arith
int_mul true false (suc m) n = ground arith
int_mul true true zero zero = ground arith
int_mul true true zero (suc n) = ground arith
int_mul true true (suc m) zero = ground arith
int_mul true true (suc m) (suc n) = ground arith

xor_twice : (a b : Bool) → xor (xor a b) b ≡ a
unfolding xor
xor_twice true true = refl
xor_twice true false = refl
xor_twice false true = refl
xor_twice false false = refl

int_add : (a : Bool) (x y : ℕ) → int a x +ℤ int a y ≡ int a (x + y)
unfolding ◌+ℤ◌
int_add false x y = ground arith
int_add true x y = ground arith

to_signed-int : (d : ℕ) → d < 2 ^ 16 → to_signed word d ≡ int (is_minus d) (magnitude d)
to_signed-int d h = ground arith

-- A magnitude that fits, with a sign, and back.
signed-int :
    (minus : Bool) (x : ℕ)
    → x ≤ 2 ^ 15
    → (minus ≡ true) ⊎ (x < 2 ^ 15)
    → to_signed word (signed minus x) ≡ int minus x
signed-int false x h p = ground arith
signed-int true x h p = ground arith

signed-lt : (minus : Bool) (x : ℕ) → signed minus x < 2 ^ 16
signed-lt false x = omega arith
signed-lt true x = omega arith

magnitude-le : (d : ℕ) → d < 2 ^ 16 → magnitude d ≤ 2 ^ 15
magnitude-le d h = ground arith

-- A quotient by a divisor of at least two is at most half of the dividend.
half_quotient : (m n : ℕ) → 2 ≤ n → m / n * 2 ≤ m
half_quotient m n h = omega (arith, mul-le-mul_left (m / n) h, div-add-mod m n, mul_comm n (m / n))

-- Only the least dividend and the divisor -1 give a quotient that does not fit.
quotient_fits :
    (d s : ℕ)
    → d < 2 ^ 16
    → s < 2 ^ 16
    → 0 < s
    → (d ≢ 0x8000) ⊎ (s ≢ 0xffff)
    → (xor (is_minus d) (is_minus s) ≡ true) ⊎ (magnitude d / magnitude s < 2 ^ 15)
unfolding xor
quotient_fits d s hd hs hp p = elim (Bool-cases (ltb (magnitude d) (2 ^ 15))) [
  | inl small ↦ inr (ground (arith, div-le_self (magnitude d) (magnitude s)))
  | inr big ↦ elim (Bool-cases (ltb 1 (magnitude s))) [
    | inl two ↦
        inr (
          omega
            (arith, magnitude-le d hd, half_quotient (magnitude d) (magnitude s) (ground arith)))
    | inr one ↦ inl (ground (arith, hd, hs, p))
  ]
]

-- The halves of the result.
module _ (d s : ℕ) where
  quotient_whole :
      Div.quotient true d s
      ≡ signed (is_minus d) (magnitude d % magnitude s) * 2 ^ 16
        + signed (xor (is_minus d) (is_minus s)) (magnitude d / magnitude s)
  unfolding Div.quotient
  quotient_whole = bit_or_halves _ _ (signed-lt _ _) (signed-lt _ _)

  quotient_low :
      Div.quotient true d s % 2 ^ 16
      ≡ signed (xor (is_minus d) (is_minus s)) (magnitude d / magnitude s)
  quotient_low =
      omega (
        arith,
        quotient_whole,
        signed-lt (xor (is_minus d) (is_minus s)) (magnitude d / magnitude s),
      )

  quotient_high : Div.quotient true d s / 2 ^ 16 ≡ signed (is_minus d) (magnitude d % magnitude s)
  quotient_high =
      omega (
        arith,
        quotient_whole,
        signed-lt (xor (is_minus d) (is_minus s)) (magnitude d / magnitude s),
      )

-- The division identity, with signs.
restored : (a b : Bool) (m n : ℕ) → int (xor a b) (m / n) *ℤ int b n +ℤ int a (m % n) ≡ int a m
restored a b m n =
    let sign : xor (xor a b) b ≡ a = xor_twice a b in
    rw (int_mul (xor a b) b (m / n) n, sign, int_add a (m / n * n) (m % n))
      (ap (int a) (omega (arith, div-add-mod m n, mul_comm n (m / n))))

-- For 16-bit patterns and a divisor that is not zero, except for the least dividend with the divisor
-- -1, signed division puts in the low half of its result the quotient of the magnitudes, negative if
-- the signs differ, and in the high half their remainder with the sign of the dividend; the quotient
-- times the divisor and the remainder make the dividend.
pub quotient_signed :
    (dest_data src_data : ℕ)
    → dest_data < 2 ^ 16
    → src_data < 2 ^ 16
    → 0 < src_data
    → (dest_data ≢ 0x8000) ⊎ (src_data ≢ 0xffff)
    → (to_signed word (Div.quotient true dest_data src_data % 2 ^ 16)
        ≡ int
            (xor (is_minus dest_data) (is_minus src_data))
            (magnitude dest_data / magnitude src_data))
      × (to_signed word (Div.quotient true dest_data src_data / 2 ^ 16)
          ≡ int (is_minus dest_data) (magnitude dest_data % magnitude src_data))
      × (to_signed word (Div.quotient true dest_data src_data % 2 ^ 16) *ℤ to_signed word src_data
            +ℤ to_signed word (Div.quotient true dest_data src_data / 2 ^ 16)
          ≡ to_signed word dest_data)
quotient_signed dest_data src_data hd hs hp p =
    let a = is_minus dest_data in
    let b = is_minus src_data in
    let m = magnitude dest_data in
    let n = magnitude src_data in
    let n1 : 1 ≤ n = ground arith in
    let nmax = magnitude-le src_data hs in
    let qmax : m / n ≤ 2 ^ 15 = omega (arith, div-le_self m n, magnitude-le dest_data hd) in
    let low = quotient_low dest_data src_data in
    let high = quotient_high dest_data src_data in
    let q : to_signed word (Div.quotient true dest_data src_data % 2 ^ 16) ≡ int (xor a b) (m / n) =
      ap (to_signed word) low
      ∙ signed-int (xor a b) (m / n) qmax (quotient_fits dest_data src_data hd hs hp p) in
    let r : to_signed word (Div.quotient true dest_data src_data / 2 ^ 16) ≡ int a (m % n) =
      ap (to_signed word) high
      ∙ signed-int a (m % n) (omega (arith, mod-lt m n1)) (inr (omega (arith, mod-lt m n1))) in
    (q, r, rw (q, r, to_signed-int src_data hs, to_signed-int dest_data hd) (restored a b m n))
