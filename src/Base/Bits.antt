-- ===== src/Base/Bits.antt =====
-- `&` and `|` at variables: both work on the high and the low digits apart, at every width.
-- From that, a mask of low ones is a remainder, and disjoint fields add up.
mod Step
use Step.{bit_and_step, bit_or_step}
use Prim.Native.Nat.{ℕ, zero, suc, ◌+◌, ◌-◌, ◌*◌, ◌/◌, ◌%◌, ◌^◌, ◌≤◌, ◌<◌, bit_and, bit_or}
use Prim.Native.Nat.{bit_or-bitwise}
use mathlib.Core.Path.{◌≡◌, refl, ap}
use mathlib.Core.WellFounded.{Acc, WellFounded, induction}
use native.Mathlib.Omega.{arith}
use native.Mathlib.Nat.{pow-suc, one-le-pow, le_refl}

below_Acc : (k n : ℕ) → n < k → Acc ◌<◌ n
below_Acc zero n h = absurd (omega arith)
below_Acc (suc k) n h = Acc.intro n (λ m p. below_Acc k m (omega arith))

lt_wf : WellFounded ◌<◌
lt_wf = record { apply = λ n. below_Acc (suc n) n (le_refl _) }

pub bit_or-zero : (a : ℕ) → bit_or a 0 ≡ a
bit_or-zero a = induction lt_wf {C = λ n. bit_or n 0 ≡ n} a λ n ih. halve n ih
  where
    halve : (n : ℕ) → ((m : ℕ) → m < n → bit_or m 0 ≡ m) → bit_or n 0 ≡ n
    halve zero ih = refl
    halve (suc n) ih = omega (arith, bit_or_step (suc n) 0, ih (suc n / 2) (omega arith))

pub zero-bit_or : (a : ℕ) → bit_or 0 a ≡ a
zero-bit_or a = bit_or-bitwise 0 a

pub bit_and-zero : (a : ℕ) → bit_and a 0 ≡ 0
bit_and-zero a = induction lt_wf {C = λ n. bit_and n 0 ≡ 0} a λ n ih. halve n ih
  where
    halve : (n : ℕ) → ((m : ℕ) → m < n → bit_and m 0 ≡ 0) → bit_and n 0 ≡ 0
    halve zero ih = refl
    halve (suc n) ih = omega (arith, bit_and_step (suc n) 0, ih (suc n / 2) (omega arith))

shifted : (q k : ℕ) → q * 2 ^ suc k ≡ 2 * (q * 2 ^ k)
shifted q k = omega (arith, ap (λ (t : ℕ). q * t) (pow-suc 2 k))

module _ (p q : ℕ) where
  -- The digits from `k` up and those below `k` are combined apart.
  pub bit_and_split :
      (k r s : ℕ)
      → r < 2 ^ k
      → s < 2 ^ k
      → bit_and (p * 2 ^ k + r) (q * 2 ^ k + s) ≡ bit_and p q * 2 ^ k + bit_and r s
  bit_and_split zero r s hr hs = ground (arith, bit_and-zero r)
  bit_and_split (suc k) r s hr hs = ground (
    arith,
    bit_and_step (p * 2 ^ suc k + r) (q * 2 ^ suc k + s),
    bit_and_step r s,
    shifted p k,
    shifted q k,
    shifted (bit_and p q) k,
    pow-suc 2 k,
    bit_and_split k (r / 2) (s / 2) (omega (arith, pow-suc 2 k)) (omega (arith, pow-suc 2 k)),
  )

  pub bit_or_split :
      (k r s : ℕ)
      → r < 2 ^ k
      → s < 2 ^ k
      → bit_or (p * 2 ^ k + r) (q * 2 ^ k + s) ≡ bit_or p q * 2 ^ k + bit_or r s
  bit_or_split zero r s hr hs = ground (arith, bit_or-zero r)
  bit_or_split (suc k) r s hr hs = ground (
    arith,
    bit_or_step (p * 2 ^ suc k + r) (q * 2 ^ suc k + s),
    bit_or_step r s,
    shifted p k,
    shifted q k,
    shifted (bit_or p q) k,
    pow-suc 2 k,
    bit_or_split k (r / 2) (s / 2) (omega (arith, pow-suc 2 k)) (omega (arith, pow-suc 2 k)),
  )

-- All ones on the low `k` digits keep them.
pub bit_and-ones : (k r : ℕ) → r < 2 ^ k → bit_and r (2 ^ k - 1) ≡ r
bit_and-ones zero r h = ground (arith, bit_and-zero r)
bit_and-ones (suc k) r h = ground (
  arith,
  bit_and_step r (2 ^ suc k - 1),
  pow-suc 2 k,
  one-le-pow k 2,
  bit_and-ones k (r / 2) (omega (arith, pow-suc 2 k)),
)

-- `x & (2^k - 1)` is the remainder by `2^k`.
pub bit_and_low : (k x : ℕ) → bit_and x (2 ^ k - 1) ≡ x % 2 ^ k
bit_and_low k x = ground (
  arith,
  one-le-pow k 2,
  bit_and_split (x / 2 ^ k) 0 k (x % 2 ^ k) (2 ^ k - 1),
  bit_and-zero (x / 2 ^ k),
  bit_and-ones k (x % 2 ^ k),
)

-- A mask of ones from `k` up to `k + m` drops the low digits of a word that fits.
pub bit_and_high :
    (k m x : ℕ) → x / 2 ^ k < 2 ^ m → bit_and x ((2 ^ m - 1) * 2 ^ k) ≡ x / 2 ^ k * 2 ^ k
bit_and_high k m x h = ground (
  arith,
  one-le-pow k 2,
  bit_and_split (x / 2 ^ k) (2 ^ m - 1) k (x % 2 ^ k) 0,
  bit_and-zero (x % 2 ^ k),
  bit_and-ones m (x / 2 ^ k) h,
)

-- `x & (1 << k)` is the digit at `k`, in its place.
pub bit_and_digit : (k x : ℕ) → bit_and x (2 ^ k) ≡ x / 2 ^ k % 2 * 2 ^ k
bit_and_digit k x = ground (
  arith,
  one-le-pow k 2,
  bit_and_split (x / 2 ^ k) 1 k (x % 2 ^ k) 0,
  bit_and-zero (x % 2 ^ k),
  bit_and_low 1 (x / 2 ^ k),
)

-- `x & ~(1 << k)` clears the digit at `k` and keeps all others.
pub bit_and_clear :
    (k m x : ℕ)
    → x / 2 ^ k / 2 < 2 ^ m
    → bit_and x ((2 ^ m - 1) * 2 * 2 ^ k + (2 ^ k - 1)) ≡ x / 2 ^ k / 2 * 2 * 2 ^ k + x % 2 ^ k
bit_and_clear k m x h = ground (
  arith,
  one-le-pow k 2,
  bit_and_split (x / 2 ^ k) ((2 ^ m - 1) * 2) k (x % 2 ^ k) (2 ^ k - 1),
  bit_and-ones k (x % 2 ^ k),
  bit_and_high 1 m (x / 2 ^ k) h,
)

bit_or-one : (x : ℕ) → bit_or x 1 ≡ x / 2 * 2 + 1
bit_or-one x = omega (arith, bit_or_step x 1, bit_or-zero (x / 2))

-- `x | (1 << k)` sets the digit at `k` and keeps all others.
pub bit_or_set : (k x : ℕ) → bit_or x (2 ^ k) ≡ x / 2 ^ k / 2 * 2 * 2 ^ k + 2 ^ k + x % 2 ^ k
bit_or_set k x = ground (
  arith,
  one-le-pow k 2,
  bit_or_split (x / 2 ^ k) 1 k (x % 2 ^ k) 0,
  bit_or-zero (x % 2 ^ k),
  ap (λ (t : ℕ). t * 2 ^ k) (bit_or-one (x / 2 ^ k)),
)

-- `(q << k) | r` is a sum where `r` fits below `k`.
pub bit_or_join : (k q r : ℕ) → r < 2 ^ k → bit_or (q * 2 ^ k) r ≡ q * 2 ^ k + r
bit_or_join k q r h =
    ground (arith, one-le-pow k 2, bit_or_split q 0 k 0 r, bit_or-zero q, zero-bit_or r)
