-- ===== src/Loader.antt =====
-- `load_elf` of src/cpu.cpp. The reader of ELF files is the library ELFIO, which is not part of the
-- repository: what the function asks of it is a parameter, the record `Elfio`. What the function
-- prints is not modelled.
pub mod Image
pub mod Refinement
pub mod Outcome
pub mod Validity
pub mod FirstStep
use m68k_emu.Base.{
  ℕ, zero, suc, ⊤, ◌+◌, Bool, true, false, not, ◌&&◌, ◌==◌, bit_and, add32, sext8, u32, Option,
  none, some, List, [], ◌∷◌, if◌then◌else◌,
}
use m68k_emu.Defines.{byte, long, reg_usp, reg_pc, memory_size, Result, ok, err, undefined}
use m68k_emu.CpuState.{Action, pure, lift, set_register, set_memory, ◌>>=◌, ◌>>◌}

-- What `load_elf` asks of one section. `get_data` gives a `char` pointer, which may be null or lead to
-- fewer bytes than `get_size` tells: at each place it leads to a byte or to none.
pub record Section : Type 0 where
  pub get_type : ℕ
  pub get_flags : ℕ
  pub get_address : ℕ
  pub get_size : ℕ
  pub get_data : ℕ → Option ℕ

-- ELFIO: `load` opens a file of that name or fails, the others read what it opened. The constants
-- are those of the ELF format.
pub record Elfio (Name Elf : Type 0) : Type 0 where
  pub load : Name → Option Elf
  pub get_class : Elf → ℕ
  pub get_encoding : Elf → ℕ
  pub get_type : Elf → ℕ
  pub get_machine : Elf → ℕ
  pub get_entry : Elf → ℕ
  pub sections : Elf → List Section
  pub elfclass32 : ℕ
  pub elfdata2msb : ℕ
  pub et_exec : ℕ
  pub em_68k : ℕ
  pub pt_load : ℕ
  pub shf_alloc : ℕ

-- The read `data[i]`, which has no meaning in C++ where the pointer leads to no byte.
abbrev pub read_byte : Option ℕ → Result ℕ
read_byte none = err undefined
read_byte (some value) = ok value

-- The loop over the bytes of a section, from byte `i` on, with `left` bytes left.
unfoldable pub load_bytes : (ℕ → Option ℕ) → ℕ → ℕ → ℕ → Action ⊤
load_bytes segment_data base_address i zero = pure tt
load_bytes segment_data base_address i (suc left) = do
  value ← lift (read_byte (segment_data i))
  set_memory (add32 base_address i) byte (sext8 value)
  load_bytes segment_data base_address (i + 1) left

module _ {Name Elf : Type 0} (elfio : Elfio Name Elf) where
  -- The test on a section, which compares its type with the constant of a segment.
  unfoldable pub is_loaded : Section → Bool
  is_loaded segment =
      segment.get_type == elfio.pt_load && not (bit_and segment.get_flags elfio.shf_alloc == 0)

  unfoldable pub load_section : Section → Action ⊤
  load_section segment =
      if is_loaded segment
      then load_bytes segment.get_data (u32 segment.get_address) 0 (u32 segment.get_size)
      else pure tt

  unfoldable pub load_sections : List Section → Action ⊤
  load_sections [] = pure tt
  load_sections (segment ∷ segments) = load_section segment >> load_sections segments

  -- The four tests on the header of the file.
  unfoldable pub is_m68k : Elf → Bool
  is_m68k elf =
      elfio.get_class elf == elfio.elfclass32
      && elfio.get_encoding elf == elfio.elfdata2msb
      && elfio.get_type elf == elfio.et_exec
      && elfio.get_machine elf == elfio.em_68k

  -- What follows the tests.
  unfoldable pub load_accepted : Elf → Action Bool
  load_accepted elf = do
    load_sections (elfio.sections elf)
    set_register reg_usp long memory_size
    set_register reg_pc long (u32 (elfio.get_entry elf))
    pure true

  unfoldable pub load_opened : Elf → Action Bool
  load_opened elf = if is_m68k elf then load_accepted elf else pure false

  unfoldable pub load_found : Option Elf → Action Bool
  load_found none = pure false
  load_found (some elf) = load_opened elf

  unfoldable pub load_elf : Name → Action Bool
  load_elf file_name = load_found (elfio.load file_name)
