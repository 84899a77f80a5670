-- ===== src/Loader/Outcome.antt =====
-- When `load_elf` of src/cpu.cpp returns true, and that it returns.
use m68k_emu.Base.{
  ◌≡◌, ◌⊎◌, ◌∙◌, true, false, inl, inr, Bool-cases, refl, sym, arith, Option, none, some, subst,
}
use m68k_emu.Base.Lists.{All}
use m68k_emu.Defines.{ok, memory_size}
use m68k_emu.CpuState.{CpuState, ◌>>=◌}
use m68k_emu.Loader.{Elfio, is_m68k, load_opened, load_found, load_elf}
use m68k_emu.Loader.Refinement.{HasData, load_elf_accepted}

module _ {Name Elf : Type 0} (elfio : Elfio Name Elf) where
  -- A 32-bit big-endian executable for the 68000.
  pub record ForM68k (elf : Elf) : Type 0 where
    pub class : elfio.get_class elf ≡ elfio.elfclass32
    pub encoding : elfio.get_encoding elf ≡ elfio.elfdata2msb
    pub type : elfio.get_type elf ≡ elfio.et_exec
    pub machine : elfio.get_machine elf ≡ elfio.em_68k

  is_m68k-true : (elf : Elf) → is_m68k elfio elf ≡ true → ForM68k elf
  unfolding is_m68k
  is_m68k-true elf h = record {
    class = ground (arith, h);
    encoding = ground (arith, h);
    type = ground (arith, h);
    machine = ground (arith, h);
  }

  is_m68k-false : (elf : Elf) → is_m68k elfio elf ≡ false → ¬ ForM68k elf
  unfolding is_m68k
  is_m68k-false elf h f = ground (arith, h, f.class, f.encoding, f.type, f.machine)

  -- A file of that name opens and is for the 68000.
  abbrev pub Accepted : Name → Type 0
  Accepted file_name = (elf : Elf) × (elfio.load file_name ≡ some elf) × ForM68k elf

  -- The data of the sections of the file of that name is at hand.
  abbrev pub IsWhole : Name → Type 0
  IsWhole file_name =
      (elf : Elf) → elfio.load file_name ≡ some elf → All (HasData elfio) (elfio.sections elf)

  found_outcome :
      (file_name : Name) (found : Option Elf) (s : CpuState)
      → elfio.load file_name ≡ found
      → s.memory.mem_size ≡ memory_size
      → IsWhole file_name
      → (((load_elf elfio file_name s).0 ≡ ok true) × Accepted file_name)
        ⊎ ((load_elf elfio file_name s ≡ (ok false, s)) × ¬ Accepted file_name)
  unfolding load_elf load_found load_opened ◌>>=◌
  found_outcome file_name none s e h whole =
      inr (rw (e, load_found) refl, λ (elf, e', f). cc (sym e ∙ e'))
  found_outcome file_name (some elf) s e h whole = elim (Bool-cases (is_m68k elfio elf)) [
    | inl m ↦ inl (
      rw (load_elf_accepted elfio file_name elf s h e m (whole elf e)) refl,
      (elf, e, is_m68k-true elf m),
    )
    | inr n ↦ inr (
      rw (e, load_found) (rw n refl),
      λ (other, e', f). is_m68k-false elf n (subst ForM68k (cc (sym e' ∙ e)) f),
    )
  ]

  -- On a memory of 16 MB and with the data of each loaded section at hand, `load_elf` returns. It
  -- returns true exactly if the file opens and is a 32-bit big-endian executable for the 68000, and
  -- else it returns false and changes nothing.
  pub load_elf_returns :
      (file_name : Name) (s : CpuState)
      → s.memory.mem_size ≡ memory_size
      → IsWhole file_name
      → (((load_elf elfio file_name s).0 ≡ ok true) × Accepted file_name)
        ⊎ ((load_elf elfio file_name s ≡ (ok false, s)) × ¬ Accepted file_name)
  load_elf_returns file_name s h whole =
      found_outcome file_name (elfio.load file_name) s refl h whole
