-- ===== src/Memory/Bytes.antt =====
-- The bytes of src/memory.cpp as a number, and what a write leaves in them.
use m68k_emu.Base.{
  ℕ, ◌+◌, ◌*◌, ◌/◌, ◌%◌, ◌^◌, ◌≤◌, ◌<◌, ◌≡◌, ◌⊎◌, arith, refl, bit_or, u32, ◌<<<◌, ◌==◌,
  if◌then◌else◌, ◌∙◌,
}
use m68k_emu.Base.Bits.{bit_or_join}
use m68k_emu.Defines.{DataSize, byte, word, long, bytes}
use m68k_emu.Helpers.Masks.{mask_8_lem}
use m68k_emu.Helpers.Flags.{range}
use m68k_emu.Memory.{read_real_mem, write_real_mem}

abbrev pub IsBytes : (ℕ → ℕ) → Type 0
IsBytes mem = (a : ℕ) → mem a < 2 ^ 8

-- The number that the bytes spell, the first one highest.
abbrev pub spelled : (ℕ → ℕ) → DataSize → ℕ
spelled addr byte = addr 0
spelled addr word = addr 0 * 2 ^ 8 + addr 1
spelled addr long = addr 0 * 2 ^ 24 + addr 1 * 2 ^ 16 + addr 2 * 2 ^ 8 + addr 3

-- `u32 (x << 8) | b` is `x * 256 + b` for a number of at most 24 digits and a byte.
join_byte : (x b : ℕ) → x < 2 ^ 24 → b < 2 ^ 8 → bit_or (u32 (x <<< 8)) b ≡ x * 2 ^ 8 + b
join_byte x b hx hb =
    let small : u32 (x <<< 8) ≡ x * 2 ^ 8 = omega arith in rw small (bit_or_join 8 x b hb)

pub read_real_mem_lem :
    (addr : ℕ → ℕ) (size : DataSize) → IsBytes addr → read_real_mem addr size ≡ spelled addr size
unfolding read_real_mem
read_real_mem_lem addr byte h = refl
read_real_mem_lem addr word h = join_byte (addr 0) (addr 1) (omega (arith, h 0)) (h 1)
read_real_mem_lem addr long h = rw (join_byte (addr 0) (addr 1) (omega (arith, h 0)) (h 1)) (
    rw (join_byte (addr 0 * 2 ^ 8 + addr 1) (addr 2) (omega (arith, h 0, h 1)) (h 2)) (
      join_byte ((addr 0 * 2 ^ 8 + addr 1) * 2 ^ 8 + addr 2) (addr 3) (omega (arith, h 0, h 1, h 2))
        (h 3)
      ∙ omega arith))

pub spelled-lt : (addr : ℕ → ℕ) (size : DataSize) → IsBytes addr → spelled addr size < range size
spelled-lt addr byte h = h 0
spelled-lt addr word h = omega (arith, h 0, h 1)
spelled-lt addr long h = omega (arith, h 0, h 1, h 2, h 3)

-- The byte of `value` that goes to place `i` of an access.
abbrev spread : ℕ → DataSize → ℕ → ℕ
spread value byte i = value % 2 ^ 8
spread value word i = if i == 0 then value / 2 ^ 8 % 2 ^ 8 else value % 2 ^ 8
spread value long i =
    if i == 0
    then value / 2 ^ 24 % 2 ^ 8
    else if i == 1
    then value / 2 ^ 16 % 2 ^ 8
    else if i == 2
    then value / 2 ^ 8 % 2 ^ 8
    else value % 2 ^ 8

pub write_inside :
    (mem : ℕ → ℕ) (at : ℕ) (size : DataSize) (value i : ℕ)
    → i < bytes size
    → write_real_mem mem at size value (at + i) ≡ spread value size i
unfolding write_real_mem
write_inside mem at byte value i h = ground (arith, mask_8_lem value)
write_inside mem at word value i h = ground (arith, mask_8_lem value, mask_8_lem (value / 2 ^ 8))
write_inside mem at long value i h = ground (
  arith,
  mask_8_lem value,
  mask_8_lem (value / 2 ^ 8),
  mask_8_lem (value / 2 ^ 16),
  mask_8_lem (value / 2 ^ 24),
)

pub write_outside :
    (mem : ℕ → ℕ) (at : ℕ) (size : DataSize) (value k : ℕ)
    → (k < at) ⊎ (at + bytes size ≤ k)
    → write_real_mem mem at size value k ≡ mem k
unfolding write_real_mem
write_outside mem at byte value k h = ground arith
write_outside mem at word value k h = ground arith
write_outside mem at long value k h = ground arith

pub write-IsBytes :
    (mem : ℕ → ℕ) (at : ℕ) (size : DataSize) (value : ℕ)
    → IsBytes mem
    → IsBytes (write_real_mem mem at size value)
unfolding write_real_mem
write-IsBytes mem at byte value h k = ground (arith, h k)
write-IsBytes mem at word value h k = ground (arith, h k)
write-IsBytes mem at long value h k = ground (arith, h k)

spelled-spread :
    (addr : ℕ → ℕ) (size : DataSize) (value : ℕ)
    → ((i : ℕ) → i < bytes size → addr i ≡ spread value size i)
    → spelled addr size ≡ value % range size
spelled-spread addr byte value h = h 0 (omega arith)
spelled-spread addr word value h = omega (arith, h 0 (omega arith), h 1 (omega arith))
spelled-spread addr long value h =
    omega (arith, h 0 (omega arith), h 1 (omega arith), h 2 (omega arith), h 3 (omega arith))

-- What a write leaves where a read of the same size and place looks.
pub read-write :
    (mem : ℕ → ℕ) (at : ℕ) (size : DataSize) (value : ℕ)
    → IsBytes mem
    → read_real_mem (λ i. write_real_mem mem at size value (at + i)) size ≡ value % range size
read-write mem at size value h =
    read_real_mem_lem _ size (λ i. write-IsBytes mem at size value h (at + i))
    ∙ spelled-spread _ size value (write_inside mem at size value)

pub read-congr :
    (f g : ℕ → ℕ) (size : DataSize)
    → ((i : ℕ) → i < bytes size → f i ≡ g i)
    → read_real_mem f size ≡ read_real_mem g size
unfolding read_real_mem
read-congr f g byte h = h 0 (omega arith)
read-congr f g word h = cc (h 0 (omega arith), h 1 (omega arith))
read-congr f g long h =
    cc (h 0 (omega arith), h 1 (omega arith), h 2 (omega arith), h 3 (omega arith))
