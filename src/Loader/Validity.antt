-- ===== src/Loader/Validity.antt =====
-- `load_elf` of src/cpu.cpp keeps a state well formed, whatever the file and also if it throws.
use m68k_emu.Base.{ℕ, zero, suc, ◌+◌, Option, none, some, List, [], ◌∷◌, add32, sext8}
use m68k_emu.Defines.{byte}
use m68k_emu.CpuState.{lift, set_memory, ◌>>◌}
use m68k_emu.CpuState.Keeps.{Keeps, Keeps-bind, Keeps-lift}
use m68k_emu.CpuState.Validity.{IsValid, set_memory-IsValid, validity_rules}
use m68k_emu.Loader.{
  Section, Elfio, read_byte, load_bytes, load_section, load_sections, load_accepted, load_opened,
  load_found, load_elf,
}

module _ {n : ℕ} where
  load_bytes-IsValid :
      (data_at : ℕ → Option ℕ) (base i left : ℕ)
      → Keeps (IsValid n) (load_bytes data_at base i left)
  unfolding load_bytes
  load_bytes-IsValid data_at base i zero = search validity_rules
  load_bytes-IsValid data_at base i (suc left) =
      Keeps-bind (lift (read_byte (data_at i)))
        (λ v. set_memory (add32 base i) byte (sext8 v) >> load_bytes data_at base (i + 1) left)
        (Keeps-lift _)
        (λ v.
          Keeps-bind (set_memory (add32 base i) byte (sext8 v))
            (λ _. load_bytes data_at base (i + 1) left) (set_memory-IsValid _ _ _)
            (λ _. load_bytes-IsValid data_at base (i + 1) left))

  module _ {Name Elf : Type 0} (elfio : Elfio Name Elf) where
    load_section-IsValid : (x : Section) → Keeps (IsValid n) (load_section elfio x)
    unfolding load_section
    load_section-IsValid x = search (validity_rules, load_bytes-IsValid)

    load_sections-IsValid : (xs : List Section) → Keeps (IsValid n) (load_sections elfio xs)
    unfolding load_sections
    load_sections-IsValid [] = search validity_rules
    load_sections-IsValid (x ∷ xs) =
        Keeps-bind (load_section elfio x) (λ _. load_sections elfio xs) (load_section-IsValid x)
          (λ _. load_sections-IsValid xs)

    load_found-IsValid : (found : Option Elf) → Keeps (IsValid n) (load_found elfio found)
    unfolding load_found load_opened load_accepted
    load_found-IsValid none = search validity_rules
    load_found-IsValid (some elf) = search (validity_rules, load_sections-IsValid) depth 9

    pub load_elf-IsValid : (file_name : Name) → Keeps (IsValid n) (load_elf elfio file_name)
    unfolding load_elf
    load_elf-IsValid file_name = load_found-IsValid (elfio.load file_name)
