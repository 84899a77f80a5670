-- ===== src/Memory/Access.antt =====
-- What an accepted access reads and writes.
use m68k_emu.Base.{ℕ, ◌+◌, ◌%◌, ◌≤◌, ◌<◌, ◌≡◌, ◌⊎◌, arith, refl, ap, subst}
use m68k_emu.Defines.{DataSize, bytes, Result, ok, err}
use m68k_emu.Helpers.Flags.{range}
use m68k_emu.Memory.{BaseMemory, check, get, set, write_real_mem}
use m68k_emu.Memory.Errors.{bus, Aligned, Fits, check_ok, check-eq-ok}
use m68k_emu.Memory.Bytes.{
  IsBytes, spelled, read_real_mem_lem, write_outside, write-IsBytes, read-write, read-congr,
}

-- An accepted read gives the bytes from the bus address on, as one number.
pub get_ok :
    (m : BaseMemory) (address : ℕ) (size : DataSize)
    → IsBytes m.base_addr
    → Aligned address size
    → Fits m.mem_size address size
    → get m address size ≡ ok (spelled (λ i. m.base_addr (bus address + i)) size)
unfolding get
get_ok m address size h a f =
    rw (check_ok m.mem_size address size a f, get)
      (ap ok
        (read_real_mem_lem (λ i. m.base_addr (bus address + i)) size (λ i. h (bus address + i))))

pub set_ok :
    (m : BaseMemory) (address : ℕ) (size : DataSize) (value : ℕ)
    → Aligned address size
    → Fits m.mem_size address size
    → set m address size value
      ≡ ok (record m { base_addr = write_real_mem m.base_addr (bus address) size value })
unfolding set
set_ok m address size value a f = rw (check_ok m.mem_size address size a f, set)

-- The place of another access, on the bus, lies outside the place of this one.
abbrev pub Apart : ℕ → DataSize → ℕ → DataSize → Type 0
Apart a size b size' = (bus b + bytes size' ≤ bus a) ⊎ (bus a + bytes size ≤ bus b)

-- Memory with the written bytes.
abbrev pub written : BaseMemory → ℕ → DataSize → ℕ → BaseMemory
written m address size value = record m {
  base_addr = write_real_mem m.base_addr (bus address) size value;
}

pub get-written_self :
    (m : BaseMemory) (address : ℕ) (size : DataSize) (value : ℕ)
    → IsBytes m.base_addr
    → Aligned address size
    → Fits m.mem_size address size
    → get (written m address size value) address size ≡ ok (value % range size)
unfolding get
get-written_self m address size value h a f =
    rw (check_ok m.mem_size address size a f, get)
      (ap ok (read-write m.base_addr (bus address) size value h))

beside :
    (size size' : DataSize) (a b at i : ℕ)
    → Apart a size b size'
    → at ≡ bus b
    → i < bytes size'
    → (at + i < bus a) ⊎ (bus a + bytes size ≤ at + i)
beside size size' a b at i p e h = ground arith

pub get-written-Apart :
    (m : BaseMemory) (address : ℕ) (size : DataSize) (value b : ℕ) (size' : DataSize)
    → Apart address size b size'
    → get (written m address size value) b size' ≡ get m b size'
unfolding get
get-written-Apart m address size value b size' p = decided (check m.mem_size b size') refl
  where
    decided :
        (r : Result ℕ)
        → check m.mem_size b size' ≡ r
        → get (written m address size value) b size' ≡ get m b size'
    decided (ok at) e =
        let place = check-eq-ok m.mem_size b size' e in
        rw (e, get)
          (ap ok (
            read-congr _ _ size' λ i hi.
              write_outside m.base_addr (bus address) size value (at + i)
                (beside size size' address b at i p place hi)))
    decided (err x) e = rw (e, get)

-- An aligned write that fits is accepted; a read of the same size at the same place gives the
-- value back as far as it fits the size, and a read apart from it gives what it gave before.
pub get-set_memory :
    (m : BaseMemory) (address : ℕ) (size : DataSize) (value : ℕ)
    → IsBytes m.base_addr
    → Aligned address size
    → Fits m.mem_size address size
    → (m' : BaseMemory) × (set m address size value ≡ ok m')
      × (get m' address size ≡ ok (value % range size))
      × ((b : ℕ) (size' : DataSize) → Apart address size b size' → get m' b size' ≡ get m b size')
get-set_memory m address size value h a f = (
  written m address size value,
  set_ok m address size value a f,
  get-written_self m address size value h a f,
  get-written-Apart m address size value,
)

-- An accepted write leaves bytes, and the size.
pub set-IsBytes :
    (m : BaseMemory) (address : ℕ) (size : DataSize) (value : ℕ) {m' : BaseMemory}
    → IsBytes m.base_addr
    → set m address size value ≡ ok m'
    → IsBytes m'.base_addr × (m'.mem_size ≡ m.mem_size)
unfolding set
set-IsBytes m address size value {m'} h e = decided (check m.mem_size address size) refl
  where
    decided :
        (r : Result ℕ)
        → check m.mem_size address size ≡ r
        → IsBytes m'.base_addr × (m'.mem_size ≡ m.mem_size)
    decided (ok at) c =
        let after : BaseMemory = record m {
          base_addr = write_real_mem m.base_addr at size value;
        } in
        let same : after ≡ m' = cc (rw (c, set) at e) in
        subst (λ k. IsBytes k.base_addr × (k.mem_size ≡ m.mem_size)) same
          (write-IsBytes m.base_addr at size value h, refl)
    decided (err x) c = absurd (cc (rw (c, set) at e))
