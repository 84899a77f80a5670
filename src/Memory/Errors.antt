-- ===== src/Memory/Errors.antt =====
-- When an access is refused, and how.
use m68k_emu.Base.{
  ℕ, ◌+◌, ◌%◌, ◌^◌, ◌≤◌, ◌<◌, ◌≡◌, ◌≢◌, ◌⊎◌, ◌==◌, if◌then◌else◌, arith, true, refl,
}
use m68k_emu.Defines.{DataSize, byte, word, long, bytes, ok, err, length_error, out_of_range}
use m68k_emu.Helpers.Masks.{mask_addr_lem}
use m68k_emu.Memory.{BaseMemory, is_byte, check, get, set}

-- The address that an access reaches on the 24-bit bus.
abbrev pub bus : ℕ → ℕ
bus address = address % 2 ^ 24

-- A word or a long at an odd address is refused; so is what ends past the memory.
abbrev pub Aligned : ℕ → DataSize → Type 0
Aligned address byte = Unit {0}
Aligned address word = bus address % 2 ≡ 0
Aligned address long = bus address % 2 ≡ 0

abbrev pub Fits : ℕ → ℕ → DataSize → Type 0
Fits mem_size address size = bus address + bytes size ≤ mem_size

pub check_ok :
    (mem_size address : ℕ) (size : DataSize)
    → Aligned address size
    → Fits mem_size address size
    → check mem_size address size ≡ ok (bus address)
unfolding check
check_ok mem_size address byte a f = rw (mask_addr_lem address) (ground arith)
check_ok mem_size address word a f = rw (mask_addr_lem address) (ground arith)
check_ok mem_size address long a f = rw (mask_addr_lem address) (ground arith)

pub check_out_of_range :
    (mem_size address : ℕ) (size : DataSize)
    → Aligned address size
    → mem_size < bus address + bytes size
    → check mem_size address size ≡ err out_of_range
unfolding check
check_out_of_range mem_size address byte a f = rw (mask_addr_lem address) (ground arith)
check_out_of_range mem_size address word a f = rw (mask_addr_lem address) (ground arith)
check_out_of_range mem_size address long a f = rw (mask_addr_lem address) (ground arith)

pub check_odd :
    (mem_size address : ℕ) (size : DataSize)
    → is_byte size ≢ true
    → bus address % 2 ≡ 1
    → check mem_size address size ≡ err length_error
unfolding check
check_odd mem_size address byte a f = absurd (a refl)
check_odd mem_size address word a f = rw (mask_addr_lem address) (ground arith)
check_odd mem_size address long a f = rw (mask_addr_lem address) (ground arith)

pub check-eq-ok :
    (mem_size address : ℕ) (size : DataSize) {at : ℕ}
    → check mem_size address size ≡ ok at
    → at ≡ bus address
unfolding check
check-eq-ok mem_size address size h = ground (arith, mask_addr_lem address)

check_refused :
    (mem_size address : ℕ) (size : DataSize)
    → is_byte size ≢ true
    → (mem_size < bus address + bytes size) ⊎ (bus address % 2 ≡ 1)
    → check mem_size address size
      ≡ err (if bus address % 2 == 1 then length_error else out_of_range)
unfolding check
check_refused mem_size address byte nb h = absurd (nb refl)
check_refused mem_size address word nb h = rw (mask_addr_lem address) (ground arith)
check_refused mem_size address long nb h = rw (mask_addr_lem address) (ground arith)

-- A read and a write of a word or a long word that would end past the memory or are at an odd
-- address are refused: with a length error at an odd address, also past the memory, and else as
-- out of range.
pub access_refused :
    (m : BaseMemory) (address : ℕ) (size : DataSize) (value : ℕ)
    → is_byte size ≢ true
    → (m.mem_size < bus address + bytes size) ⊎ (bus address % 2 ≡ 1)
    → (get m address size ≡ err (if bus address % 2 == 1 then length_error else out_of_range))
      × (set m address size value
          ≡ err (if bus address % 2 == 1 then length_error else out_of_range))
unfolding get set
access_refused m address size value nb h = (
  rw (get, check_refused m.mem_size address size nb h) refl,
  rw (set, check_refused m.mem_size address size nb h) refl,
)
