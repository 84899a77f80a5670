-- ===== src/Helpers/Rotate.antt =====
-- The shifts and rotations of include/helpers.hpp on uint64_t. A shift by 64 places or more has
-- no defined value in C++; `8 - b` and its kin wrap below zero, so they reach such shifts too.
use m68k_emu.Base.{
  ℕ, ◌+◌, ◌-◌, ◌%◌, ◌^◌, Bool, true, false, bit_and, bit_or, ltb, truth, u64, ◌<<<◌, ◌>>>◌,
}
use m68k_emu.Defines.{DataSize, byte, word, long, Result, ok, err, undefined}

infixl 5 ◌>>=◌
abbrev ◌>>=◌ : {A B : Type 0} → Result A → (A → Result B) → Result B
ok a >>= f = f a
err e >>= f = err e

unfoldable pub lsl : ℕ → ℕ → Result ℕ
lsl a b = elim (ltb b 64) [ true ↦ ok (u64 (a <<< b)) | false ↦ err undefined ]

unfoldable pub lsr : ℕ → ℕ → Result ℕ
lsr a b = elim (ltb b 64) [ true ↦ ok (a >>> b) | false ↦ err undefined ]

-- `w - b` on uint64_t.
abbrev pub rest_of : ℕ → ℕ → ℕ
rest_of w b = (w + 2 ^ 64 - b) % 2 ^ 64

-- `ROL_8`, `ROL_9`, `ROL_16`, `ROL_17`, `ROL_32` and `ROL_33` at the width `w`.
unfoldable pub rol_at : ℕ → ℕ → ℕ → Result ℕ
rol_at w a b = do x ← lsl a b; y ← lsr a (rest_of w b); ok (bit_and (bit_or x y) (2 ^ w - 1))

unfoldable pub ror_at : ℕ → ℕ → ℕ → Result ℕ
ror_at w a b = do x ← lsr a b; y ← lsl a (rest_of w b); ok (bit_and (bit_or x y) (2 ^ w - 1))

abbrev pub width : DataSize → ℕ
width byte = 8
width word = 16
width long = 32

-- `ROL` and `ROR` return `bool`.
unfoldable pub rol : ℕ → ℕ → DataSize → Result Bool
rol a b size = do r ← rol_at (width size) a b; ok (truth r)

unfoldable pub ror : ℕ → ℕ → DataSize → Result Bool
ror a b size = do r ← ror_at (width size) a b; ok (truth r)
