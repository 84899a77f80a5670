-- ===== src/Loader/FirstStep.antt =====
-- From `load_elf` to the first instruction of the file, src/cpu.cpp.
use m68k_emu.Base.{ℕ, ◌+◌, ◌*◌, ◌%◌, ◌^◌, ◌≤◌, ◌≡◌, ◌∙◌, ap, arith, refl, u16, none, some, true}
use m68k_emu.Base.Lists.{All}
use m68k_emu.Defines.{ok, word, memory_size}
use m68k_emu.Memory
use m68k_emu.Memory.Errors.{bus}
use m68k_emu.Memory.Access.{get_ok}
use m68k_emu.CpuState.{CpuState, ◌>>=◌, ◌>>◌}
use m68k_emu.CpuState.Validity.{IsValid}
use m68k_emu.Decoder.{entry}
use m68k_emu.Cpu.{execute, step}
use m68k_emu.Cpu.Fetch.{dispatched, fetched, step_lem}
use m68k_emu.Loader.{Elfio, is_m68k, load_elf}
use m68k_emu.Loader.Refinement.{image, FitsBus, HasData, load_elf-image}
use m68k_emu.Loader.Validity.{load_elf-IsValid}

module _ {Name Elf : Type 0} (elfio : Elfio Name Elf) where
  -- The word that the image of a file has at an address.
  abbrev pub image_word : Elf → CpuState → ℕ → ℕ
  image_word elf s a =
      image elfio (elfio.sections elf) s.memory.base_addr a * 2 ^ 8
      + image elfio (elfio.sections elf) s.memory.base_addr (a + 1)

  loaded_word :
      (elf : Elf) (s s' : CpuState) (a : ℕ)
      → IsValid memory_size s'
      → a % 2 ≡ 0
      → a + 2 ≤ 2 ^ 24
      → s'.memory.base_addr a ≡ image elfio (elfio.sections elf) s.memory.base_addr a
      → s'.memory.base_addr (a + 1) ≡ image elfio (elfio.sections elf) s.memory.base_addr (a + 1)
      → Memory.get s'.memory a word ≡ ok (image_word elf s a)
  loaded_word elf s s' a v even fits h h' =
      let at : bus a + 0 ≡ a = omega arith in
      let next : bus a + 1 ≡ a + 1 = omega arith in
      get_ok s'.memory a word v.memory (omega arith) (omega (arith, v.size))
      ∙ rw (at, next, h, h') refl

  -- From a well-formed state with a memory of 16 MB, a file that opens and passes the four tests, with
  -- no section of more than 16 MB, the data of each loaded section at hand and an even entry address
  -- on the bus, is loaded, and the step after it executes the instruction that the image of the file
  -- has at the entry address.
  pub step-load_elf :
      (file_name : Name) (elf : Elf) (s : CpuState)
      → IsValid memory_size s
      → elfio.load file_name ≡ some elf
      → is_m68k elfio elf ≡ true
      → All FitsBus (elfio.sections elf)
      → All (HasData elfio) (elfio.sections elf)
      → elfio.get_entry elf % 2 ≡ 0
      → elfio.get_entry elf + 2 ≤ 2 ^ 24
      → (load_elf elfio file_name >> step) s
        ≡ execute
            (entry (u16 (image_word elf s (elfio.get_entry elf))) none).class
            (load_elf elfio file_name s).1
  unfolding ◌>>=◌
  step-load_elf file_name elf s v found m68k sizes whole even fits =
      let e = elfio.get_entry elf in
      let s' = (load_elf elfio file_name s).1 in
      let (returned, first, pc, sp) =
        load_elf-image elfio file_name elf s e v found m68k sizes whole (omega arith) in
      let (_, second, _, _) =
        load_elf-image elfio file_name elf s (e + 1) v found m68k sizes whole (omega arith) in
      let read : fetched s' ≡ ok (image_word elf s e) =
        ap (λ a. Memory.get s'.memory a word) (pc ∙ omega arith)
        ∙ loaded_word elf s s' e ((load_elf-IsValid elfio file_name).at s v) even fits first
            second in
      rw returned (step_lem s' ∙ ap (λ r. dispatched r s') read)
