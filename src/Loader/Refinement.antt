-- ===== src/Loader/Refinement.antt =====
-- `load_elf` against the image that the sections of the file describe.
use m68k_emu.Base.{
  ℕ, ◌%◌, ◌^◌, ◌<◌, ◌≤◌, ◌≡◌, ◌≢◌, ◌&&◌, true, ltb, u32, inl, inr, Bool-cases, refl, ◌∙◌, List, [],
  ◌∷◌, if◌then◌else◌, arith, none, some,
}
use m68k_emu.Base.Lists.{All}
use m68k_emu.Defines.{ok, memory_size, reg_usp, reg_pc, long}
use m68k_emu.Registers
use m68k_emu.Registers.{Registers}
use m68k_emu.Registers.Access
use m68k_emu.Registers.Access.{set-IsValid}
use m68k_emu.Registers.ReadBack.{set-same, set-apart}
use m68k_emu.CpuState.Validity.{IsValid}
use m68k_emu.CpuState.{CpuState, ◌>>=◌}
use m68k_emu.Loader.{
  Section, Elfio, is_loaded, load_section, load_sections, load_accepted, load_opened, load_found,
  load_elf, is_m68k,
}
use m68k_emu.Loader.Image.{with_bytes, values, poured, load_bytes_lem, poured_at, offset}

offset_cast : (base a : ℕ) → offset (u32 base) a ≡ offset base a
offset_cast base a = omega arith

-- The registers that `load_elf` leaves.
abbrev started : ℕ → Registers → Registers
started entry r = Registers.set (Registers.set r reg_usp long memory_size) reg_pc long (u32 entry)

pc_started :
    (r : Registers) (entry : ℕ)
    → Access.IsValid r
    → Registers.get (started entry r) reg_pc long ≡ u32 entry
pc_started r entry v =
    set-same (Registers.set r reg_usp long memory_size) reg_pc long (u32 entry)
      (set-IsValid r reg_usp long memory_size v) (omega arith)
    ∙ omega arith

sp_started :
    (r : Registers) (entry : ℕ)
    → Access.IsValid r
    → Registers.get (started entry r) reg_usp long ≡ memory_size
unfolding Registers.physical
sp_started r entry v =
    set-apart (Registers.set r reg_usp long memory_size) reg_pc reg_usp long (u32 entry)
      (set-IsValid r reg_usp long memory_size v) (omega arith) (ground arith)
    ∙ set-same r reg_usp long memory_size v (omega arith)

-- A section of at most 16 MB.
abbrev pub FitsBus : Section → Type 0
FitsBus x = u32 x.get_size ≤ 2 ^ 24

module _ {Name Elf : Type 0} (elfio : Elfio Name Elf) where
  -- The memory that a section describes over what lies below it.
  abbrev pub covered : Section → (ℕ → ℕ) → ℕ → ℕ
  covered x below a =
      if is_loaded elfio x && ltb (offset x.get_address a) (u32 x.get_size)
      then values x.get_data (offset x.get_address a) % 2 ^ 8
      else below a

  -- The memory that a list of sections describes: a later section covers an earlier one.
  abbrev pub image : List Section → (ℕ → ℕ) → ℕ → ℕ
  image [] below = below
  image (x ∷ xs) below = image xs (covered x below)

  abbrev section_bytes : Section → (ℕ → ℕ) → ℕ → ℕ
  section_bytes x mem =
      if is_loaded elfio x
      then poured (values x.get_data) (u32 x.get_address) 0 (u32 x.get_size) mem
      else mem

  abbrev all_bytes : List Section → (ℕ → ℕ) → ℕ → ℕ
  all_bytes [] mem = mem
  all_bytes (x ∷ xs) mem = all_bytes xs (section_bytes x mem)

  -- A section that is loaded has a byte at each place below its size.
  abbrev pub HasData : Section → Type 0
  HasData x = is_loaded elfio x ≡ true → (k : ℕ) → k < u32 x.get_size → x.get_data k ≢ none

  load_section_lem :
      (x : Section) (s : CpuState)
      → s.memory.mem_size ≡ memory_size
      → HasData x
      → load_section elfio x s ≡ (ok tt, with_bytes s (section_bytes x s.memory.base_addr))
  unfolding load_section ◌>>=◌
  load_section_lem x s h r = elim (Bool-cases (is_loaded elfio x)) [
    | inl e ↦ rw e (
        load_bytes_lem x.get_data (u32 x.get_address) 0 (u32 x.get_size) s h
          λ k hk. r e k (omega arith))
    | inr e ↦ rw e refl
  ]

  load_sections_lem :
      (xs : List Section) (s : CpuState)
      → s.memory.mem_size ≡ memory_size
      → All HasData xs
      → load_sections elfio xs s ≡ (ok tt, with_bytes s (all_bytes xs s.memory.base_addr))
  unfolding load_sections ◌>>=◌
  load_sections_lem [] s h r = refl
  load_sections_lem (x ∷ xs) s h (r, rs) =
      rw (load_section_lem x s h r)
        (load_sections_lem xs (with_bytes s (section_bytes x s.memory.base_addr)) h rs)

  covered_at :
      (x : Section) (f g : ℕ → ℕ) (a : ℕ)
      → FitsBus x
      → a < 2 ^ 24
      → f a ≡ g a
      → section_bytes x f a ≡ covered x g a
  covered_at x f g a le h e = elim (Bool-cases (is_loaded elfio x)) [
    | inl y ↦ rw y (
        poured_at (values x.get_data) (u32 x.get_address) 0 (u32 x.get_size) f a h
          (omega (arith, le))
        ∙ rw (offset_cast x.get_address a) (ground (arith, e)))
    | inr y ↦ rw y e
  ]

  image_at :
      (xs : List Section) (f g : ℕ → ℕ) (a : ℕ)
      → All FitsBus xs
      → a < 2 ^ 24
      → f a ≡ g a
      → all_bytes xs f a ≡ image xs g a
  image_at [] f g a hs h e = e
  image_at (x ∷ xs) f g a (hx, hs) h e =
      image_at xs (section_bytes x f) (covered x g) a hs h (covered_at x f g a hx h e)

  -- The state that an accepted file leaves.
  abbrev pub loaded : Elf → CpuState → CpuState
  loaded elf s = record {
    memory = record s.memory { base_addr = all_bytes (elfio.sections elf) s.memory.base_addr };
    registers = started (elfio.get_entry elf) s.registers;
  }

  load_accepted_lem :
      (elf : Elf) (s : CpuState)
      → s.memory.mem_size ≡ memory_size
      → All HasData (elfio.sections elf)
      → load_accepted elfio elf s ≡ (ok true, loaded elf s)
  unfolding load_accepted ◌>>=◌
  load_accepted_lem elf s h r = rw (load_sections_lem (elfio.sections elf) s h r) refl

  pub load_elf_accepted :
      (file_name : Name) (elf : Elf) (s : CpuState)
      → s.memory.mem_size ≡ memory_size
      → elfio.load file_name ≡ some elf
      → is_m68k elfio elf ≡ true
      → All HasData (elfio.sections elf)
      → load_elf elfio file_name s ≡ (ok true, loaded elf s)
  unfolding load_elf load_found load_opened ◌>>=◌
  load_elf_accepted file_name elf s h found m68k r =
      rw (found, load_found) (rw m68k (load_accepted_lem elf s h r))

  -- From a well-formed state with a memory of 16 MB, a file that opens and passes the four tests, with
  -- no section of more than 16 MB and the data of each loaded section at hand, is loaded: `load_elf`
  -- returns true, the byte at any address of the bus is the one of the last loaded section that
  -- covers the address, or else the one it was, PC is the entry address and the stack pointer is the
  -- size of the memory.
  pub load_elf-image :
      (file_name : Name) (elf : Elf) (s : CpuState) (a : ℕ)
      → IsValid memory_size s
      → elfio.load file_name ≡ some elf
      → is_m68k elfio elf ≡ true
      → All FitsBus (elfio.sections elf)
      → All HasData (elfio.sections elf)
      → a < 2 ^ 24
      → ((load_elf elfio file_name s).0 ≡ ok true)
        × ((load_elf elfio file_name s).1.memory.base_addr a
            ≡ image (elfio.sections elf) s.memory.base_addr a)
        × (Registers.get (load_elf elfio file_name s).1.registers reg_pc long
            ≡ u32 (elfio.get_entry elf))
        × (Registers.get (load_elf elfio file_name s).1.registers reg_usp long ≡ memory_size)
  load_elf-image file_name elf s a v found m68k sizes whole h =
      rw (load_elf_accepted file_name elf s v.size found m68k whole) (
        refl,
        image_at (elfio.sections elf) s.memory.base_addr s.memory.base_addr a sizes h refl,
        pc_started s.registers (elfio.get_entry elf) v.registers,
        sp_started s.registers (elfio.get_entry elf) v.registers,
      )
