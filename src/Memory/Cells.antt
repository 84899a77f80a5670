-- ===== src/Memory/Cells.antt =====
-- What a memory promises: a partial map from addresses to bytes, read and written cell by cell, with
-- numbers spelled from the highest byte down. `Memory/Refinement` shows that `BaseMemory` keeps it.
use m68k_emu.Base.{
  ℕ, zero, suc, ◌+◌, ◌*◌, ◌/◌, ◌%◌, ◌^◌, Bool, not, ◌&&◌, ltb, ◌==◌, if◌then◌else◌, Option, none,
  some,
}
use m68k_emu.Defines.{DataSize, bytes, Result, ok, err, length_error, out_of_range}
use m68k_emu.Memory.{BaseMemory, is_byte}
use m68k_emu.Memory.Interface.{IMemory}

abbrev pub Cells : Type 0
Cells = ℕ → Option ℕ

-- The cells of a memory: its bytes as far as its size.
abbrev pub cells : BaseMemory → Cells
cells m a = if ltb a m.mem_size then some (m.base_addr a) else none

abbrev joined : ℕ → ℕ → Option ℕ → Option ℕ
joined n high (some low) = some (high * 2 ^ (8 * n) + low)
joined n high none = none

abbrev prefixed : ℕ → Option ℕ → Option ℕ → Option ℕ
prefixed n (some high) low = joined n high low
prefixed n none low = none

-- The number in `n` cells from `a` on.
unfoldable pub fetch : Cells → ℕ → ℕ → Option ℕ
fetch c a zero = some 0
fetch c a (suc n) = prefixed n (c a) (fetch c (a + 1) n)

abbrev pub put : Cells → ℕ → ℕ → Cells
put c a v k = if k == a then some v else c k

abbrev pub guarded : Option ℕ → Option Cells → Option Cells
guarded (some old) c = c
guarded none c = none

-- `n` cells from `a` on get the last `n` bytes of a number; a cell must be there to get one.
unfoldable pub store : Cells → ℕ → ℕ → ℕ → Option Cells
store c a zero value = some c
store c a (suc n) value =
    guarded (c a) (store (put c a (value / 2 ^ (8 * n) % 2 ^ 8)) (a + 1) n value)

abbrev pub found : {A : Type 0} → Option A → Result A
found (some a) = ok a
found none = err out_of_range

-- A word or a long lies at an even address.
abbrev pub is_misaligned : ℕ → DataSize → Bool
is_misaligned address size = not (is_byte size) && not (address % 2 == 0)

abbrev checked : {A : Type 0} → Bool → Option A → Result A
checked misaligned a = if misaligned then err length_error else found a

-- An access through 24 address lines.
unfoldable pub cell_store : IMemory Cells
cell_store = record {
  get = λ c address size.
      checked (is_misaligned address size) (fetch c (address % 2 ^ 24) (bytes size));
  set = λ c address size value.
      checked (is_misaligned address size) (store c (address % 2 ^ 24) (bytes size) value);
}
