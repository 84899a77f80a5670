-- ===== src/Memory.antt =====
-- include/memory.hpp and src/memory.cpp: the big-endian byte store behind `IMemory`.
-- `BaseMemory` is its one implementation in the repository; `SimpleMemory` and `AlignedMemory`
-- (include/aligned_memory.hpp) give it a block, and what the allocation gives is a parameter. The host's bytes are a function of the offset from `baseAddr`. An address is a
-- `std::size_t`; `MASK_ADDR` leaves 24 digits, so `address + size` does not wrap.
pub mod Bytes
pub mod Access
pub mod Errors
pub mod Interface
pub mod Cells
pub mod Filling
pub mod Refinement
use m68k_emu.Base.{
  ℕ, ◌+◌, ◌-◌, ◌%◌, ◌^◌, Bool, true, false, not, ◌&&◌, bit_or, ltb, ◌==◌, if◌then◌else◌, update,
  Option, none, some, u8, u32, ◌<<<◌, ◌>>>◌,
}
use m68k_emu.Defines.{
  DataSize, byte, word, long, bytes, memory_size, Result, ok, err, length_error, out_of_range,
  undefined,
}
use m68k_emu.Helpers.{mask_8, mask_addr}

-- `IMemory::read_real_mem`; `addr` gives the bytes from the pointer on.
unfoldable pub read_real_mem : (ℕ → ℕ) → DataSize → ℕ
read_real_mem addr byte = addr 0
read_real_mem addr word = bit_or (u32 (addr 0 <<< 8)) (addr 1)
read_real_mem addr long =
    let first = bit_or (u32 (addr 0 <<< 8)) (addr 1) in
    let second = bit_or (u32 (first <<< 8)) (addr 2) in bit_or (u32 (second <<< 8)) (addr 3)

-- `IMemory::write_real_mem` at the pointer `at`.
unfoldable pub write_real_mem : (ℕ → ℕ) → ℕ → DataSize → ℕ → ℕ → ℕ
write_real_mem mem at byte value = update mem at (u8 (mask_8 value))
write_real_mem mem at word value =
    update (update mem at (u8 (mask_8 (value >>> 8)))) (at + 1) (u8 (mask_8 value))
write_real_mem mem at long value =
    let first = update mem at (u8 (mask_8 (value >>> 24))) in
    let second = update first (at + 1) (u8 (mask_8 (value >>> 16))) in
    let third = update second (at + 2) (u8 (mask_8 (value >>> 8))) in
    update third (at + 3) (u8 (mask_8 value))

pub record BaseMemory : Type 0 where
  pub base_addr : ℕ → ℕ
  pub mem_size : ℕ

abbrev pub is_byte : DataSize → Bool
is_byte byte = true
is_byte word = false
is_byte long = false

-- The two tests that `get` and `set` make on the masked address, in their order.
unfoldable pub check : ℕ → ℕ → DataSize → Result ℕ
check mem_size address size =
    let masked = mask_addr address in
    if not (is_byte size) && not (masked % 2 == 0)
    then err length_error
    else if ltb mem_size (masked + bytes size)
    then err out_of_range
    else ok masked

unfoldable pub get : BaseMemory → ℕ → DataSize → Result ℕ
get m address size = elim (check m.mem_size address size) [
  | ok at ↦ ok (read_real_mem (λ i. m.base_addr (at + i)) size)
  | err e ↦ err e
]

unfoldable pub set : BaseMemory → ℕ → DataSize → ℕ → Result BaseMemory
set m address size value = elim (check m.mem_size address size) [
  | ok at ↦ ok (record m { base_addr = write_real_mem m.base_addr at size value })
  | err e ↦ err e
]

-- `BaseMemory::BaseMemory` on what an allocation gives. The memory test clears the last byte. It is
-- made if there is a block or a size, so without a block, or on a block of no bytes, it writes
-- outside.
unfoldable pub base_memory : Option (ℕ → ℕ) → ℕ → Result BaseMemory
base_memory none size =
    if size == 0 then ok (record { base_addr = λ i. 0; mem_size = 0 }) else err undefined
base_memory (some allocated) size =
    if size == 0
    then err undefined
    else ok (record { base_addr = update allocated (size - 1) 0; mem_size = size })

-- `SimpleMemory::SimpleMemory`, where `new` gives a block.
unfoldable pub simple_memory : (ℕ → ℕ) → Result BaseMemory
simple_memory allocated = base_memory (some allocated) memory_size

-- The wrappers of include/aligned_memory.hpp around what the operating system gives: the code that
-- `posix_memalign` returns with the block that it stores, and the block, if any, of
-- `_aligned_malloc`, which takes its arguments the other way round.
unfoldable pub aligned_alloc_posix : (ℕ → ℕ → ℕ × (ℕ → ℕ)) → ℕ → ℕ → Option (ℕ → ℕ)
aligned_alloc_posix posix_memalign alignment size =
    let (code, block) = posix_memalign alignment size in if code == 0 then some block else none

unfoldable pub aligned_alloc_windows : (ℕ → ℕ → Option (ℕ → ℕ)) → ℕ → ℕ → Option (ℕ → ℕ)
aligned_alloc_windows aligned_malloc alignment size = aligned_malloc size alignment

-- `AlignedMemory::AlignedMemory`, by the `aligned_alloc` of the platform.
unfoldable pub aligned_memory : (ℕ → ℕ → Option (ℕ → ℕ)) → Result BaseMemory
aligned_memory aligned_alloc = base_memory (aligned_alloc memory_size memory_size) memory_size
