-- ===== src/Registers/Access.antt =====
-- Reading and writing registers at each size.
use native.Mathlib.Nat.{mod-lt}
use m68k_emu.Base.{==_ne, ℕ, ◌+◌, ◌*◌, ◌/◌, ◌%◌, ◌^◌, ◌<◌, ◌≡◌, ◌≢◌, ap, ◌==◌, if◌then◌else◌, arith}
use m68k_emu.Base.Bits.{bit_or_join, zero-bit_or}
use m68k_emu.Defines.{DataSize, byte, word, long, RegisterType, reg_sr}
use m68k_emu.Helpers.Masks.{
  mask_8_lem, mask_16_lem, mask_32_lem, mask_above_8_lem, mask_above_16_lem, mask_above_32_lem,
}
use m68k_emu.Helpers.Flags.{range}
use m68k_emu.Registers.{Registers, get, set, physical, narrow, merge, stored, get_flag}

-- Every register holds a 32-bit word, and the status register a 16-bit one.
pub record IsValid (r : Registers) : Type 0 where
  pub words : (i : ℕ) → r.reg_buffer i < 2 ^ 32
  pub status : r.reg_buffer reg_sr < 2 ^ 16

pub narrow_lem : (v : ℕ) (size : DataSize) → v < 2 ^ 32 → narrow v size ≡ v % range size
narrow_lem v byte h = mask_8_lem v
narrow_lem v word h = mask_16_lem v
narrow_lem v long h = omega arith

-- A store keeps the part of the word above its size.
pub merge_lem :
    (v : ℕ) (size : DataSize) (x : ℕ)
    → v < 2 ^ 32
    → merge v size x ≡ v / range size * range size + x % range size
merge_lem v byte x h =
    rw (mask_8_lem x, mask_above_8_lem v h) (bit_or_join 8 (v / 2 ^ 8) (x % 2 ^ 8) (omega arith))
merge_lem v word x h =
    rw (mask_16_lem x, mask_above_16_lem v h)
      (bit_or_join 16 (v / 2 ^ 16) (x % 2 ^ 16) (omega arith))
merge_lem v long x h =
    rw (mask_32_lem x, mask_above_32_lem v) (omega (arith, zero-bit_or (x % 2 ^ 32)))

pub physical-set :
    (r : Registers) (i j : RegisterType) (size : DataSize) (x : ℕ)
    → i ≢ reg_sr
    → physical (set r i size x) j ≡ physical r j
unfolding physical set get_flag
physical-set r i j size x ne = ground arith

pub physical-ne-sr : (r : Registers) (i : RegisterType) → i ≢ reg_sr → physical r i ≢ reg_sr
unfolding physical
physical-ne-sr r i ne = ground arith

stored_lem :
    (r : Registers) (p : RegisterType) (size : DataSize) (x : ℕ)
    → IsValid r
    → p ≢ reg_sr
    → stored r p size x ≡ r.reg_buffer p / range size * range size + x % range size
stored_lem r p size x v ne = rw (==_ne p reg_sr ne) (merge_lem (r.reg_buffer p) size x (v.words p))

-- Where registers hold 32-bit words, and outside the status register, a read of a long word after a
-- write of any size gives the old
-- word with its low part replaced, if both reach the same entry, and the old word if not.
pub get-set :
    (r : Registers) (i j : RegisterType) (size : DataSize) (x : ℕ)
    → IsValid r
    → i ≢ reg_sr
    → get (set r i size x) j long ≡ (
        if physical r i == physical r j
        then get r j long / range size * range size + x % range size
        else get r j long)
unfolding get set
get-set r i j size x v ne =
    rw (physical-set r i j size x ne)
      (ground (arith, stored_lem r (physical r i) size x v (physical-ne-sr r i ne)))

-- A narrow read is the low part of the long word.
pub get_narrow :
    (r : Registers) (i : RegisterType) (size : DataSize)
    → IsValid r
    → get r i size ≡ get r i long % range size
unfolding get
get_narrow r i size v = narrow_lem (r.reg_buffer (physical r i)) size (v.words (physical r i))

merge-lt : (v : ℕ) (size : DataSize) (x : ℕ) → v < 2 ^ 32 → merge v size x < 2 ^ 32
merge-lt v byte x h = omega (arith, merge_lem v byte x h)
merge-lt v word x h = omega (arith, merge_lem v word x h)
merge-lt v long x h = omega (arith, merge_lem v long x h)

stored-lt :
    (r : Registers) (p : RegisterType) (size : DataSize) (x : ℕ)
    → IsValid r
    → stored r p size x < 2 ^ 32
stored-lt r p size x v = ground (
  arith,
  merge-lt (r.reg_buffer p) size x (v.words p),
  mask_16_lem (merge (r.reg_buffer p) size x),
)

stored_sr-lt : (r : Registers) (size : DataSize) (x : ℕ) → stored r reg_sr size x < 2 ^ 16
stored_sr-lt r size x = omega (arith, mask_16_lem (merge (r.reg_buffer reg_sr) size x))

pub set-IsValid :
    (r : Registers) (i : RegisterType) (size : DataSize) (x : ℕ)
    → IsValid r
    → IsValid (set r i size x)
unfolding set
set-IsValid r i size x v = record {
  words = λ k. ground (arith, v.words k, stored-lt r (physical r i) size x v);
  status = ground (arith, v.status, stored_sr-lt r size x);
}

range-pos : (size : DataSize) → 0 < range size
range-pos byte = omega arith
range-pos word = omega arith
range-pos long = omega arith

pub get-lt :
    (r : Registers) (i : RegisterType) (size : DataSize) → IsValid r → get r i size < range size
get-lt r i size v = rw (get_narrow r i size v) (mod-lt _ (range-pos size))

-- Registers that share an entry read alike.
pub same_entry :
    (r : Registers) (i j : RegisterType) → physical r i ≡ physical r j → get r i long ≡ get r j long
unfolding get
same_entry r i j e = ap r.reg_buffer e
