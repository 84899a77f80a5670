-- ===== src/Memory/Filling.antt =====
-- What the reads and the writes of `Memory/Cells` come to on the cells of a memory.
use m68k_emu.Base.{
  ℕ, zero, suc, ◌+◌, ◌*◌, ◌/◌, ◌<◌, ◌≤◌, ◌%◌, ◌^◌, ◌≡◌, ◌≢◌, ◌∙◌, refl, ap, fun_ext, arith, Option,
  some, none,
}
use m68k_emu.Defines.{DataSize, byte, word, long, bytes}
use m68k_emu.Memory.{BaseMemory, write_real_mem}
use native.Mathlib.Decide.{dec_le}
use m68k_emu.Helpers.Masks.{mask_8_lem}
use m68k_emu.Memory.Bytes.{spelled}
use m68k_emu.Memory.Cells.{Cells, cells, fetch, put, guarded, store}

pub fetch_inside :
    (m : BaseMemory) (a : ℕ) (size : DataSize)
    → a + bytes size ≤ m.mem_size
    → fetch (cells m) a (bytes size) ≡ some (spelled (λ i. m.base_addr (a + i)) size)
unfolding fetch
fetch_inside m a byte h = ground arith
fetch_inside m a word h = ground arith
fetch_inside m a long h = ground arith

fetch_outside :
    (m : BaseMemory) (a n : ℕ) → m.mem_size < a + suc n → fetch (cells m) a (suc n) ≡ none
unfolding fetch
fetch_outside m a zero h = ground arith
fetch_outside m a (suc n) h = rw (fetch_outside m (a + 1) n (omega arith)) (ground arith)

-- What `store` leaves when every cell is there.
abbrev filled : Cells → ℕ → ℕ → ℕ → Cells
filled c a zero value = c
filled c a (suc n) value = filled (put c a (value / 2 ^ (8 * n) % 2 ^ 8)) (a + 1) n value

store-filled :
    (c : Cells) (a n value : ℕ)
    → ((k : ℕ) → k < a + n → c k ≢ none)
    → store c a n value ≡ some (filled c a n value)
unfolding store
store-filled c a zero value h = refl
store-filled c a (suc n) value h =
    present (c a) (h a (omega arith))
    ∙ store-filled (put c a (value / 2 ^ (8 * n) % 2 ^ 8)) (a + 1) n value
        (λ k hk. ground (arith, h k (omega arith)))
  where
    present : {rest : Option Cells} (o : Option ℕ) → o ≢ none → guarded o rest ≡ rest
    present (some x) e = refl
    present none e = absurd (e refl)

filled-write :
    (m : BaseMemory) (a : ℕ) (size : DataSize) (value k : ℕ)
    → a + bytes size ≤ m.mem_size
    → filled (cells m) a (bytes size) value k
      ≡ cells (record m { base_addr = write_real_mem m.base_addr a size value }) k
unfolding write_real_mem
filled-write m a byte value k h = ground (arith, mask_8_lem value)
filled-write m a word value k h = ground (arith, mask_8_lem value, mask_8_lem (value / 2 ^ 8))
filled-write m a long value k h = ground (
  arith,
  mask_8_lem value,
  mask_8_lem (value / 2 ^ 8),
  mask_8_lem (value / 2 ^ 16),
  mask_8_lem (value / 2 ^ 24),
)

pub store_inside :
    (m : BaseMemory) (a : ℕ) (size : DataSize) (value : ℕ)
    → a + bytes size ≤ m.mem_size
    → store (cells m) a (bytes size) value
      ≡ some (cells (record m { base_addr = write_real_mem m.base_addr a size value }))
store_inside m a size value h =
    store-filled (cells m) a (bytes size) value (λ k hk. ground arith)
    ∙ ap some (fun_ext λ k. filled-write m a size value k h)

store_outside :
    (c : Cells) (mem_size a n value : ℕ)
    → ((k : ℕ) → mem_size ≤ k → c k ≡ none)
    → mem_size < a + suc n
    → store c a (suc n) value ≡ none
unfolding store
store_outside c mem_size a zero value e h = rw (e a (omega arith)) refl
store_outside c mem_size a (suc n) value e h = elim (dec_le mem_size a) [
  | yes p ↦ rw (e a p) refl
  | no p ↦
      ap (guarded (c a)) (
        store_outside (put c a (value / 2 ^ (8 * suc n) % 2 ^ 8)) mem_size (a + 1) n value
          (λ k hk. ground (arith, e k hk)) (omega arith))
      ∙ none_left (c a)
]
  where
    none_left : (o : Option ℕ) → guarded o none ≡ none
    none_left (some x) = refl
    none_left none = refl

pub fetch_past :
    (m : BaseMemory) (a : ℕ) (size : DataSize)
    → m.mem_size < a + bytes size
    → fetch (cells m) a (bytes size) ≡ none
fetch_past m a byte h = fetch_outside m a 0 h
fetch_past m a word h = fetch_outside m a 1 h
fetch_past m a long h = fetch_outside m a 3 h

pub store_past :
    (m : BaseMemory) (a : ℕ) (size : DataSize) (value : ℕ)
    → m.mem_size < a + bytes size
    → store (cells m) a (bytes size) value ≡ none
store_past m a byte value h = store_outside (cells m) m.mem_size a 0 value (λ k hk. ground arith) h
store_past m a word value h = store_outside (cells m) m.mem_size a 1 value (λ k hk. ground arith) h
store_past m a long value h = store_outside (cells m) m.mem_size a 3 value (λ k hk. ground arith) h
