-- ===== src/Registers/Flags.antt =====
-- The status flags: a flag reads back what was set, and no flag disturbs another.
use m68k_emu.Base.{
  ℕ, zero, suc, ◌+◌, ◌-◌, ◌*◌, ◌/◌, ◌%◌, ◌^◌, ◌≤◌, ◌<◌, ◌≡◌, ◌≢◌, Bool, true, false, bit_and, truth,
  ◌==◌, refl, if◌then◌else◌, arith,
}
use native.Mathlib.Nat.{one-le-pow}
use m68k_emu.Base.Bits.{bit_and_digit, bit_and_clear, bit_or_set}
use m68k_emu.Defines.{
  StatusRegisterFlag, flag_carry, flag_overflow, flag_zero, flag_negative, flag_extend,
  flag_supervisor, flag_trace, place, reg_sr,
}
use m68k_emu.Registers.Access.{IsValid}
use m68k_emu.Registers.{Registers, get_flag, set_flag, with_flag}

-- The digit of a word at a place.
abbrev pub digit : ℕ → ℕ → ℕ
digit sr k = sr / 2 ^ k % 2

abbrev pub bit : Bool → ℕ
bit true = 1
bit false = 0

truth-digit : (k sr : ℕ) → truth (bit_and sr (2 ^ k)) ≡ (digit sr k == 1)
truth-digit k sr =
    rw (bit_and_digit k sr)
      (scaled (digit sr k) (2 ^ k) (omega arith) (one-le-pow k 2 (omega arith)))
  where
    scaled : (d p : ℕ) → d < 2 → 1 ≤ p → truth (d * p) ≡ (d == 1)
    scaled zero p hd hp = ground arith
    scaled (suc zero) p hd hp = ground arith
    scaled (suc (suc d)) p hd hp = absurd (omega arith)

-- The word with the digit at `k` replaced.
abbrev pub put_digit : ℕ → ℕ → ℕ → ℕ
put_digit sr k b = sr / 2 ^ k / 2 * 2 * 2 ^ k + b * 2 ^ k + sr % 2 ^ k

pub with_flag_lem :
    (f : StatusRegisterFlag) (sr : ℕ) (value : Bool)
    → sr < 2 ^ 32
    → with_flag sr (2 ^ place f) value ≡ put_digit sr (place f) (bit value)
with_flag_lem flag_carry sr false h = omega (arith, bit_and_clear 0 31 sr)
with_flag_lem flag_carry sr true h =
    omega (arith, bit_and_clear 0 31 sr, bit_or_set 0 (bit_and sr 0xffff_fffe))
with_flag_lem f sr false h = omega (arith, bit_and_clear (place f) (31 - place f) sr)
with_flag_lem f sr true h = omega (
  arith,
  bit_and_clear (place f) (31 - place f) sr,
  bit_or_set (place f) (bit_and sr (0xffff_ffff - 2 ^ place f)),
)

digit-put_digit :
    (f g : StatusRegisterFlag) (sr b : ℕ)
    → b < 2
    → digit (put_digit sr (place f) b) (place g)
      ≡ (if place f == place g then b else digit sr (place g))
digit-put_digit flag_carry flag_carry sr b h = omega arith
digit-put_digit _ flag_carry sr b h = omega arith
digit-put_digit flag_carry flag_overflow sr b h = omega arith
digit-put_digit _ flag_overflow sr b h = omega arith
digit-put_digit flag_carry flag_zero sr b h = omega arith
digit-put_digit _ flag_zero sr b h = omega arith
digit-put_digit flag_carry flag_negative sr b h = omega arith
digit-put_digit _ flag_negative sr b h = omega arith
digit-put_digit flag_carry flag_extend sr b h = omega arith
digit-put_digit _ flag_extend sr b h = omega arith
digit-put_digit flag_carry flag_supervisor sr b h = omega arith
digit-put_digit _ flag_supervisor sr b h = omega arith
digit-put_digit flag_carry flag_trace sr b h = omega arith
digit-put_digit _ flag_trace sr b h = omega arith

bit-lt : (b : Bool) → bit b < 2
bit-lt true = omega arith
bit-lt false = omega arith

bit-eq-one : (b : Bool) → (bit b == 1) ≡ b
bit-eq-one true = refl
bit-eq-one false = refl

if-eq-one : (c b : Bool) (d : ℕ) → ((if c then bit b else d) == 1) ≡ (if c then b else (d == 1))
if-eq-one true b d = bit-eq-one b
if-eq-one false b d = refl

-- While the status register holds a 32-bit word, a flag that is set reads back, and every other
-- flag reads as before.
pub get_flag-set_flag :
    (r : Registers) (f g : StatusRegisterFlag) (value : Bool)
    → r.reg_buffer reg_sr < 2 ^ 32
    → get_flag (set_flag r f value) g ≡ (if place f == place g then value else get_flag r g)
unfolding get_flag set_flag
get_flag-set_flag r f g value h =
    rw
      (
        truth-digit (place g) (with_flag (r.reg_buffer reg_sr) (2 ^ place f) value),
        truth-digit (place g) (r.reg_buffer reg_sr),
        with_flag_lem f (r.reg_buffer reg_sr) value h,
        digit-put_digit f g (r.reg_buffer reg_sr) (bit value) (bit-lt value),
      )
      (if-eq-one (place f == place g) value (digit (r.reg_buffer reg_sr) (place g)))

put_digit-lt :
    (f : StatusRegisterFlag) (sr b : ℕ) → sr < 2 ^ 16 → b < 2 → put_digit sr (place f) b < 2 ^ 16
put_digit-lt flag_carry sr b h hb = omega arith
put_digit-lt _ sr b h hb = omega arith

pub set_flag-IsValid :
    (r : Registers) (f : StatusRegisterFlag) (value : Bool)
    → IsValid r
    → IsValid (set_flag r f value)
unfolding set_flag
set_flag-IsValid r f value v =
    let sr = r.reg_buffer reg_sr in
    let fits : with_flag sr (2 ^ place f) value < 2 ^ 16 =
      rw (with_flag_lem f sr value (omega arith))
        (put_digit-lt f sr (bit value) v.status (bit-lt value)) in
    record { words = λ k. ground (arith, v.words k); status = fits }

-- Setting a flag changes the entry of the status register and no other.
pub reg_buffer-set_flag :
    (r : Registers) (f : StatusRegisterFlag) (value : Bool) (i : ℕ)
    → i ≢ reg_sr
    → (set_flag r f value).reg_buffer i ≡ r.reg_buffer i
unfolding set_flag
reg_buffer-set_flag r f value i ne = ground arith
