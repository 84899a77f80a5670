-- ===== src/Loader/Image.antt =====
-- What `load_elf` leaves in a memory of 16 MB.
use m68k_emu.Base.{
  ℕ, zero, suc, ◌+◌, ◌-◌, ◌%◌, ◌^◌, ◌<◌, ◌≤◌, ◌≡◌, ◌≢◌, Option, none, some, ◌&&◌, ltb, leb, ◌==◌,
  update, add32, sext8, refl, ap, subst, if◌then◌else◌, arith,
}
use m68k_emu.Defines.{byte, ok, memory_size}
use m68k_emu.Helpers.Masks.{mask_8_lem}
use m68k_emu.Memory.{write_real_mem}
use m68k_emu.Memory.Errors.{bus}
use m68k_emu.Memory.Access.{set_ok}
use m68k_emu.CpuState.{CpuState, lift, set_memory, ◌>>=◌}
use m68k_emu.Loader.{load_bytes, read_byte}

-- A state with other bytes in its memory.
abbrev pub with_bytes : CpuState → (ℕ → ℕ) → CpuState
with_bytes s mem = record s { memory = record s.memory { base_addr = mem } }

write_byte :
    (mem : ℕ → ℕ) (at d : ℕ) → write_real_mem mem at byte (sext8 d) ≡ update mem at (d % 2 ^ 8)
unfolding write_real_mem
write_byte mem at d = ap (update mem at) (ground (arith, mask_8_lem (sext8 d)))

set_memory_byte :
    (s : CpuState) (address d : ℕ)
    → s.memory.mem_size ≡ memory_size
    → set_memory address byte (sext8 d) s
      ≡ (ok tt, with_bytes s (update s.memory.base_addr (bus address) (d % 2 ^ 8)))
unfolding set_memory
set_memory_byte s address d h =
    rw
      (
        set_ok s.memory address byte (sext8 d) tt (omega (arith, h)),
        write_byte s.memory.base_addr (bus address) d,
      )
      refl

-- The bytes after the loop of `load_elf` over a section.
abbrev pub poured : (ℕ → ℕ) → ℕ → ℕ → ℕ → (ℕ → ℕ) → ℕ → ℕ
poured data_at base i zero mem = mem
poured data_at base i (suc left) mem =
    poured data_at base (i + 1) left (update mem (bus (add32 base i)) (data_at i % 2 ^ 8))

-- The byte at a place that leads to one.
abbrev pub value_of : Option ℕ → ℕ
value_of none = 0
value_of (some value) = value

abbrev pub values : (ℕ → Option ℕ) → ℕ → ℕ
values segment_data i = value_of (segment_data i)

read_byte-value_of : (o : Option ℕ) → o ≢ none → read_byte o ≡ ok (value_of o)
read_byte-value_of none h = absurd (h refl)
read_byte-value_of (some value) h = refl

pub load_bytes_lem :
    (segment_data : ℕ → Option ℕ) (base i left : ℕ) (s : CpuState)
    → s.memory.mem_size ≡ memory_size
    → ((k : ℕ) → k < i + left → segment_data k ≢ none)
    → load_bytes segment_data base i left s
      ≡ (ok tt, with_bytes s (poured (values segment_data) base i left s.memory.base_addr))
unfolding load_bytes lift ◌>>=◌
load_bytes_lem segment_data base i zero s h r = refl
load_bytes_lem segment_data base i (suc left) s h r =
    let value = value_of (segment_data i) in
    let after = with_bytes s (update s.memory.base_addr (bus (add32 base i)) (value % 2 ^ 8)) in
    rw
      (
        read_byte-value_of (segment_data i) (r i (omega arith)),
        set_memory_byte s (add32 base i) value h,
      )
      (load_bytes_lem segment_data base (i + 1) left after h (λ k hk. r k (omega arith)))

-- How far past the base address, around the bus, an address lies.
abbrev pub offset : ℕ → ℕ → ℕ
offset base a = (a + 2 ^ 24 - base % 2 ^ 24) % 2 ^ 24

offset_at : (base i a : ℕ) → a < 2 ^ 24 → i < 2 ^ 24 → bus (add32 base i) ≡ a → offset base a ≡ i
offset_at base i a ha hi e = omega arith

at_offset : (base a : ℕ) → a < 2 ^ 24 → bus (add32 base (offset base a)) ≡ a
at_offset base a ha = omega arith

-- The first byte of a loop joins the range of the others.
joined :
    (data_at : ℕ → ℕ) (at a i k left old : ℕ)
    → (at ≡ a → k ≡ i)
    → (k ≡ i → at ≡ a)
    → (if leb (i + 1) k && ltb k (i + 1 + left)
        then data_at k % 2 ^ 8
        else (if at == a then data_at i % 2 ^ 8 else old))
      ≡ (if leb i k && ltb k (i + suc left) then data_at k % 2 ^ 8 else old)
joined data_at at a i k left old f g = grind arith

pub poured_at :
    (data_at : ℕ → ℕ) (base i left : ℕ) (mem : ℕ → ℕ) (a : ℕ)
    → a < 2 ^ 24
    → i + left ≤ 2 ^ 24
    → poured data_at base i left mem a ≡ (
        if leb i (offset base a) && ltb (offset base a) (i + left)
        then data_at (offset base a) % 2 ^ 8
        else mem a)
poured_at data_at base i zero mem a h le = ground arith
poured_at data_at base i (suc left) mem a h le =
    rw (poured_at data_at base (i + 1) left _ a h (omega arith)) (
      joined data_at (bus (add32 base i)) a i (offset base a) left (mem a)
        (offset_at base i a h (omega arith))
        (λ e. subst (λ k. bus (add32 base k) ≡ a) e (at_offset base a h)))
