-- ===== src/Instruction/Products.antt =====
-- The numbers that src/instructions/mul.cpp computes.
use native.Mathlib.Nat.{add-mul, mul-add, mul_comm, mul-le-mul}
use m68k_emu.Base.{
  ℕ, suc, ◌+◌, ◌-◌, ◌*◌, ◌%◌, ◌^◌, ◌<◌, ◌≤◌, ◌≡◌, ◌⊎◌, inl, inr, arith, refl, ap, true, false, ltb,
  u32, Bool-cases, sext16,
}
use native.Mathlib.Decide.{dec_le}
use m68k_emu.Base.Int.{pos, negsuc, ◌*ℤ◌}
use m68k_emu.Defines.{word, long, ok, err, undefined}
use m68k_emu.Helpers.Overflow.{to_signed}
use m68k_emu.Instruction.Mul

-- The product with the pattern of a negative number.
negative_mul :
    (m y : ℕ) → m ≤ 2 ^ 32 → m * y ≤ 2 ^ 32 → (2 ^ 32 - m) * y % 2 ^ 32 ≡ (2 ^ 32 - m * y) % 2 ^ 32
negative_mul m y hm h =
    let whole : 2 ^ 32 - m + m ≡ 2 ^ 32 = omega arith in
    omega (arith, add-mul (2 ^ 32 - m) m y, ap (λ t. t * y) whole)

negatives_mul :
    (m n : ℕ)
    → m ≤ 2 ^ 32
    → n ≤ 2 ^ 32
    → m * n < 2 ^ 32
    → (2 ^ 32 - m) * (2 ^ 32 - n) % 2 ^ 32 ≡ m * n
negatives_mul m n hm hn h =
    let whole : 2 ^ 32 - m + m ≡ 2 ^ 32 = omega arith in
    let whole' : 2 ^ 32 - n + n ≡ 2 ^ 32 = omega arith in
    omega (
      arith,
      add-mul (2 ^ 32 - m) m (2 ^ 32 - n),
      ap (λ t. t * (2 ^ 32 - n)) whole,
      mul-add m (2 ^ 32 - n) n,
      ap (λ t. m * t) whole',
    )

-- The integers for which two patterns stand, and their product.
positives : (x y : ℕ) → x < 2 ^ 15 → y < 2 ^ 15 → to_signed long (u32 (x * y)) ≡ pos x *ℤ pos y
unfolding ◌*ℤ◌
positives x y hx hy = ground (arith, mul-le-mul hx hy)

mixed :
    (k y : ℕ)
    → k < 2 ^ 15
    → y < 2 ^ 15
    → to_signed long (u32 ((2 ^ 32 - suc k) * y)) ≡ negsuc k *ℤ pos y
unfolding ◌*ℤ◌
mixed k y hk hy =
    let small : suc k * y ≤ 2 ^ 15 * 2 ^ 15 =
      mul-le-mul {n₂ = 2 ^ 15} {m₂ = 2 ^ 15} (omega arith) (omega arith) in
    ground (arith, negative_mul (suc k) y (omega arith) (omega arith), small)

mixed_right :
    (y k : ℕ)
    → y < 2 ^ 15
    → k < 2 ^ 15
    → to_signed long (u32 (y * (2 ^ 32 - suc k))) ≡ pos y *ℤ negsuc k
unfolding ◌*ℤ◌
mixed_right y k hy hk =
    let small : suc k * y ≤ 2 ^ 15 * 2 ^ 15 =
      mul-le-mul {n₂ = 2 ^ 15} {m₂ = 2 ^ 15} (omega arith) (omega arith) in
    rw (mul_comm y (2 ^ 32 - suc k)) (
      ground (arith, negative_mul (suc k) y (omega arith) (omega arith), small, mul_comm y (suc k)))

negatives :
    (k l : ℕ)
    → k < 2 ^ 15
    → l < 2 ^ 15
    → to_signed long (u32 ((2 ^ 32 - suc k) * (2 ^ 32 - suc l))) ≡ negsuc k *ℤ negsuc l
unfolding ◌*ℤ◌
negatives k l hk hl =
    let small : suc k * suc l ≤ 2 ^ 15 * 2 ^ 15 = mul-le-mul hk hl in
    ground (arith, negatives_mul (suc k) (suc l) (omega arith) (omega arith) (omega arith), small)

-- A pattern of 16 digits is that of a number from zero up or that of a negative number.
sign_cases :
    (x : ℕ)
    → x < 2 ^ 16
    → ((x < 2 ^ 15) × (to_signed word x ≡ pos x) × (sext16 x ≡ x))
      ⊎ ((k : ℕ) × (k < 2 ^ 15) × (to_signed word x ≡ negsuc k) × (sext16 x ≡ 2 ^ 32 - suc k))
sign_cases x h = elim (Bool-cases (ltb x (2 ^ 15))) [
  | inl l ↦ inl (ground arith, ground arith, ground arith)
  | inr g ↦ inr (2 ^ 16 - x - 1, ground arith, ground arith, ground arith)
]

-- On two 16-bit patterns, the signed product has a value in C++, the 32-bit pattern of the product of
-- the integers that they stand for. The unsigned product is the product of the two numbers, or it has
-- no value in C++ and that product is from 2 ^ 31 up.
pub product_lem :
    (src_data dest_data : ℕ)
    → src_data < 2 ^ 16
    → dest_data < 2 ^ 16
    → ((r : ℕ) × (Mul.product true src_data dest_data ≡ ok r)
        × (to_signed long r ≡ to_signed word src_data *ℤ to_signed word dest_data))
      × ((Mul.product false src_data dest_data ≡ ok (src_data * dest_data))
          ⊎ ((Mul.product false src_data dest_data ≡ err undefined)
              × (2 ^ 31 ≤ src_data * dest_data)))
unfolding Mul.product
product_lem src_data dest_data hs hd =
    ((u32 (sext16 src_data * sext16 dest_data), refl, signed), unsigned)
  where
    unsigned :
        (Mul.product false src_data dest_data ≡ ok (src_data * dest_data))
        ⊎ ((Mul.product false src_data dest_data ≡ err undefined) × (2 ^ 31 ≤ src_data * dest_data))
    unsigned = elim (dec_le (2 ^ 31) (src_data * dest_data)) [
      | yes h ↦ inr (ground arith, h)
      | no h ↦ inl (ground arith)
    ]

    signed :
        to_signed long (u32 (sext16 src_data * sext16 dest_data))
        ≡ to_signed word src_data *ℤ to_signed word dest_data
    signed = elim (sign_cases src_data hs) [
      | inl (l, e, f) ↦ elim (sign_cases dest_data hd) [
        | inl (l', e', f') ↦ rw (e, e', f, f') (positives src_data dest_data l l')
        | inr (k', l', e', f') ↦ rw (e, e', f, f') (mixed_right src_data k' l l')
      ]
      | inr (k, l, e, f) ↦ elim (sign_cases dest_data hd) [
        | inl (l', e', f') ↦ rw (e, e', f, f') (mixed k dest_data l l')
        | inr (k', l', e', f') ↦ rw (e, e', f, f') (negatives k k' l l')
      ]
    ]
