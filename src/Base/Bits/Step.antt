-- ===== src/Base/Bits/Step.antt =====
-- The native `bit_and` and `bit_or` stand for a recursion on binary digits with fuel; here the
-- fuel is dropped, which leaves one equation for the lowest digit of each.
use Prim.Native.Nat.{ℕ, zero, suc, ◌+◌, ◌*◌, ◌/◌, ◌%◌, ◌≤◌, min, max, digits, bitwise}
use Prim.Native.Nat.{bit_and, bit_or, bit_and-bitwise, bit_or-bitwise}
use mathlib.Core.Path.{◌≡◌, refl}
use native.Mathlib.Nat.{le_refl}
use native.Mathlib.Omega.{arith}

module _ (rest : ℕ → ℕ) (digit : ℕ → ℕ → ℕ) where
  -- Fuel from `a` up gives one result.
  settled : (a b k j : ℕ) → a ≤ j → a ≤ k → digits rest digit j a b ≡ digits rest digit k a b
  settled (suc a) b (suc k) (suc j) hj hk =
      rw (settled (suc a / 2) (b / 2) k j (omega arith) (omega arith))
  settled (suc a) b zero j hj hk = absurd (omega arith)
  settled (suc a) b (suc k) zero hj hk = absurd (omega arith)
  settled zero b (suc k) (suc j) hj hk = refl
  settled zero b (suc k) zero hj hk = refl
  settled zero b zero (suc j) hj hk = refl
  settled zero b zero zero hj hk = refl

  lowest :
      (a b : ℕ)
      → bitwise rest digit (suc a) b
        ≡ bitwise rest digit (suc a / 2) (b / 2) * 2 + digit (suc a % 2) (b % 2)
  lowest a b =
      let half : suc a / 2 ≤ a = omega arith in
      omega (arith, settled (suc a / 2) (b / 2) (suc a / 2) a half (le_refl (suc a / 2)))

pub bit_or_step : (x y : ℕ) → bit_or x y ≡ max (x % 2) (y % 2) + 2 * bit_or (x / 2) (y / 2)
bit_or_step (suc x) y = simp bit_or-bitwise (omega (arith, lowest (λ r. r) max x y))
bit_or_step zero y = simp bit_or-bitwise (omega arith)

pub bit_and_step : (x y : ℕ) → bit_and x y ≡ min (x % 2) (y % 2) + 2 * bit_and (x / 2) (y / 2)
bit_and_step (suc x) y = simp bit_and-bitwise (omega (arith, lowest (λ r. 0) min x y))
bit_and_step zero y = simp bit_and-bitwise (omega arith)
