-- ===== src/Examples/Running.antt =====
-- The loader and the counting loop, each at a machine of its own.
use m68k_emu.Base.{
  ◌^◌, ◌≤◌, ◌+◌, ◌%◌, ◌⊎◌, u16, none, ℕ, ⊤, ◌*◌, ◌≡◌, arith, refl, true, false, none, some, [], ◌∷◌,
  ◌==◌, u32, if◌then◌else◌,
}
use m68k_emu.Base.Lists.{All}
use m68k_emu.Defines.{ok, long, word, memory_size, reg_pc, reg_usp}
use m68k_emu.Helpers.{mask_addr, mask_16}
use m68k_emu.Registers
use m68k_emu.Memory
use m68k_emu.CpuState.{CpuState}
use m68k_emu.CpuState.Validity.{IsValid}
use m68k_emu.Loader.{Section, Elfio, is_m68k, is_loaded, load_elf}
use m68k_emu.Loader.Refinement.{image, FitsBus, HasData, load_elf-image}
use m68k_emu.Loader.Outcome.{Accepted, IsWhole, load_elf_returns}
use m68k_emu.CpuState.{◌>>◌}
use m68k_emu.Decoder.{entry}
use m68k_emu.Loader.FirstStep.{image_word, step-load_elf}
use m68k_emu.Cpu.{steps, step, execute}
use m68k_emu.Cpu.SingleSteps.{Loaded}
use m68k_emu.Cpu.Countdown.{Counted, steps_countdown}
use m68k_emu.Examples.{entries}

-- Two bytes of text at 0x1000.
abbrev text : Section
text = record {
  get_type = 1;
  get_flags = 6;
  get_address = 0x1000;
  get_size = 2;
  get_data = λ i. if i == 0 then some 0x4e else if i == 1 then some 0x75 else none;
}

-- A reader with one file, named 0.
reader : Elfio ℕ ⊤
reader = record {
  load = λ name. if name == 0 then some tt else none;
  get_class = λ e. 1;
  get_encoding = λ e. 2;
  get_type = λ e. 2;
  get_machine = λ e. 4;
  get_entry = λ e. 0x1000;
  sections = λ e. text ∷ [];
  elfclass32 = 1;
  elfdata2msb = 2;
  et_exec = 2;
  em_68k = 4;
  pt_load = 1;
  shf_alloc = 2;
}

-- A machine with 16 MB that hold 0xff.
full : CpuState
full = record {
  memory = record { base_addr = λ i. 0xff; mem_size = memory_size };
  registers = record { reg_buffer = entries 0 };
}

full-size : full.memory.mem_size ≡ memory_size
unfolding full
full-size = refl

full-IsValid : IsValid memory_size full
unfolding full
full-IsValid = record {
  registers = record { words = λ i. ground arith; status = omega arith };
  memory = λ i. omega arith;
  size = refl;
}

has_data : All (HasData reader) (reader.sections tt)
unfolding reader
has_data = (λ e k h. ground (arith, h), tt)

is_whole : IsWhole reader 0
is_whole elf e = has_data

load_elf_returns_example :
    (((load_elf reader 0 full).0 ≡ ok true) × Accepted reader 0)
    ⊎ ((load_elf reader 0 full ≡ (ok false, full)) × ¬ Accepted reader 0)
load_elf_returns_example = load_elf_returns reader 0 full full-size is_whole

opens : reader.load 0 ≡ some tt
unfolding reader
opens = refl

for_m68k : is_m68k reader tt ≡ true
unfolding reader is_m68k
for_m68k = refl

small : All FitsBus (reader.sections tt)
unfolding reader
small = (omega arith, tt)

load_elf-image_example :
    ((load_elf reader 0 full).0 ≡ ok true)
    × ((load_elf reader 0 full).1.memory.base_addr 0x1001
        ≡ image reader (reader.sections tt) full.memory.base_addr 0x1001)
    × (Registers.get (load_elf reader 0 full).1.registers reg_pc long ≡ u32 (reader.get_entry tt))
    × (Registers.get (load_elf reader 0 full).1.registers reg_usp long ≡ memory_size)
load_elf-image_example =
    load_elf-image reader 0 tt full 0x1001 full-IsValid opens for_m68k small has_data (omega arith)

-- The byte of the image there.
byte_of_text : image reader (reader.sections tt) full.memory.base_addr 0x1001 ≡ 0x75
unfolding reader is_loaded
byte_of_text = refl

even_entry : reader.get_entry tt % 2 ≡ 0
unfolding reader
even_entry = refl

entry_fits : reader.get_entry tt + 2 ≤ 2 ^ 24
unfolding reader
entry_fits = omega arith

step-load_elf_example :
    (load_elf reader 0 >> step) full
    ≡ execute
        (entry (u16 (image_word reader tt full (reader.get_entry tt))) none).class
        (load_elf reader 0 full).1
step-load_elf_example =
    step-load_elf reader 0 tt full full-IsValid opens for_m68k small has_data even_entry entry_fits

-- `subq.w #1, D0` at 32 and `bne.s` back to it; D0 holds 200.
counting : CpuState
counting = record {
  memory = record {
    base_addr = λ i.
        if i == 32
        then 0x53
        else if i == 33
        then 0x40
        else if i == 34
        then 0x66
        else if i == 35
        then 0xfc
        else 0;
    mem_size = 128;
  };
  registers = record { reg_buffer = entries 32 };
}

counting-Loaded : Loaded 128 0 32 counting
unfolding counting Memory.get Memory.check Memory.read_real_mem mask_addr
counting-Loaded = record {
  valid = record {
    registers = record { words = λ i. ground arith; status = omega arith };
    memory = λ i. ground arith;
    size = refl;
  };
  first = refl;
  second = refl;
}

counting-pc : Registers.get counting.registers reg_pc long ≡ 32
unfolding counting Registers.get Registers.physical Registers.get_flag
counting-pc = refl

counting-d0 : Registers.get counting.registers 0 word ≡ 200
unfolding counting Registers.get Registers.physical Registers.get_flag mask_16
counting-d0 = refl

steps_countdown_example :
    (s' : CpuState) × (steps (2 * 200) counting ≡ (ok tt, s')) × Counted 0 32 counting s'
steps_countdown_example =
    steps_countdown 128 0 32 199 counting counting-Loaded (omega arith) (omega arith) (omega arith)
      counting-pc counting-d0
