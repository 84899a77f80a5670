-- ===== src/Examples/Failing.antt =====
-- The theorems about refused accesses, throws and alike memories, each at a machine that meets them.
use m68k_emu.Base.{
  ℕ, ◌/◌, ◌%◌, ◌≡◌, ◌∙◌, List, [], ◌∷◌, false, ap, arith, fun_ext, refl, ltb, none, true, u16, ◌==◌,
  if◌then◌else◌,
}
use m68k_emu.Defines.{
  word, long, err, ok, out_of_range, undefined, Error, indirect_predecrement, direct_data,
}
use m68k_emu.Helpers.{is_memory_alterable, mask_addr, mask_16, mask_32, mask_above_32}
use m68k_emu.Registers
use m68k_emu.Memory
use m68k_emu.Memory.{BaseMemory, get, set}
use m68k_emu.Memory.Bytes.{IsBytes}
use m68k_emu.Memory.Cells.{cells, cell_store}
use m68k_emu.Memory.Interface.{Call, reads, writes, answers, mapped, left_by}
use m68k_emu.Memory.Refinement.{base, memory_refines, answers-cells}
use m68k_emu.CpuState.{CpuState, ◌>>=◌}
use m68k_emu.CpuState.Operands.{get_data}
use m68k_emu.CpuState.Silent.{get_data_silent}
use m68k_emu.CpuState.Store.{set_data}
use m68k_emu.Instruction.{get_addressing_mode, get_register_type}
use m68k_emu.Instruction.Common.{advance}
use m68k_emu.Instruction.Class.{Class, Move, Div, move, div}
use m68k_emu.Instruction.Move
use m68k_emu.Instruction.Div
use m68k_emu.Decoder.{entry, candidate}
use m68k_emu.Decoder.Table.{opcode_mask_table}
use m68k_emu.Cpu.{execute, step, steps}
use m68k_emu.Cpu.Fetch.{step_lem, fetched, dispatched}
use m68k_emu.Cpu.Atomic.{step_atomic}
use m68k_emu.Cpu.Blindness.{steps_alike}
use m68k_emu.Cpu.Definedness.{is_risky, step_undefined}
use m68k_emu.Examples.{entries, image, image-IsBytes, machine, machine-IsValid}

-- A memory of 128 bytes.
small : BaseMemory
small = record { base_addr = image; mem_size = 128 }

small-IsBytes : IsBytes small.base_addr
unfolding small
small-IsBytes = image-IsBytes

memory_refines_example :
    (get small 126 word ≡ cell_store.get (cells small) 126 word)
    × (mapped cells (set small 126 word 0x1234) ≡ cell_store.set (cells small) 126 word 0x1234)
    × IsBytes (left_by small (set small 126 word 0x1234)).base_addr
memory_refines_example = memory_refines small 126 word 0x1234 small-IsBytes

-- Two writes, of which the second ends past the memory, and reads at them and at an odd address.
abbrev calls : List Call
calls =
    writes 40 long 0x0102_0304
    ∷ writes 126 long 5
    ∷ reads 42 word
    ∷ reads 126 word
    ∷ reads 41 word
    ∷ []

answers-cells_example : answers base calls small ≡ answers cell_store calls (cells small)
answers-cells_example = answers-cells calls small small-IsBytes

-- A machine with an opcode at 48, where its program counter is.
at_opcode : ℕ → CpuState
at_opcode opcode = record {
  memory = record {
    base_addr = λ i. if i == 48 then opcode / 256 else if i == 49 then opcode % 256 else 0;
    mem_size = 128;
  };
  registers = record { reg_buffer = entries 48 };
}

-- What a step at a known instruction throws.
throws_at :
    (opcode : ℕ) {c : Class} {e : Error}
    → fetched (at_opcode opcode) ≡ ok opcode
    → (entry (u16 opcode) none).class ≡ c
    → (execute c (at_opcode opcode)).0 ≡ err e
    → (step (at_opcode opcode)).0 ≡ err e
throws_at opcode f h k =
    ap (λ r. r.0)
      (step_lem (at_opcode opcode)
        ∙ ap (λ r. dispatched r (at_opcode opcode)) f
        ∙ ap (λ c. execute c (at_opcode opcode)) h)
    ∙ k

-- MOVE.L D0, -(A1), where A1 is 0 and the store would end at the top of the bus.
abbrev store_below : Move
store_below = record {
  dest_mode = indirect_predecrement;
  dest_reg = 9;
  src_mode = direct_data;
  src_reg = 0;
  data_size = long;
  is_movea = false;
}

store_entry : (entry (u16 0x2300) none).class ≡ move store_below
unfolding entry candidate opcode_mask_table Move.create is_memory_alterable get_addressing_mode
    get_register_type
store_entry = refl

store_fetched : fetched (at_opcode 0x2300) ≡ ok 0x2300
unfolding at_opcode Memory.get Memory.check Memory.read_real_mem mask_addr Registers.get
    Registers.physical Registers.get_flag
store_fetched = refl

store_refused : (execute (move store_below) (at_opcode 0x2300)).0 ≡ err out_of_range
unfolding at_opcode execute Move.execute Move.move_data advance get_data set_data ◌>>=◌ Memory.get
    Memory.set Memory.check Memory.read_real_mem mask_addr mask_32 mask_above_32 Registers.get
    Registers.set Registers.physical Registers.get_flag
store_refused = refl

step_atomic_example : (step (at_opcode 0x2300)).1.memory ≡ (at_opcode 0x2300).memory
step_atomic_example =
    step_atomic (at_opcode 0x2300) out_of_range
      (throws_at 0x2300 store_fetched store_entry store_refused)

-- DIVU D2, D0, where D2 is 0.
abbrev divide_by_zero : Div
divide_by_zero = record {
  is_signed = false;
  dest_mode = direct_data;
  dest_reg = 0;
  src_mode = direct_data;
  src_reg = 2;
  data_size = word;
}

divide_entry : (entry (u16 0x80c2) none).class ≡ div divide_by_zero
unfolding entry candidate opcode_mask_table Div.create get_addressing_mode get_register_type
divide_entry = refl

divide_fetched : fetched (at_opcode 0x80c2) ≡ ok 0x80c2
unfolding at_opcode Memory.get Memory.check Memory.read_real_mem mask_addr Registers.get
    Registers.physical Registers.get_flag
divide_fetched = refl

divide_undefined : (execute (div divide_by_zero) (at_opcode 0x80c2)).0 ≡ err undefined
unfolding at_opcode execute Div.execute Div.divide advance get_data get_data_silent ◌>>=◌ mask_16
    mask_32 mask_above_32 Registers.get Registers.set Registers.physical Registers.get_flag
divide_undefined = refl

step_undefined_example :
    (opcode : ℕ) × (fetched (at_opcode 0x80c2) ≡ ok opcode)
    × (is_risky (entry (u16 opcode) none).class ≡ true)
step_undefined_example =
    step_undefined (at_opcode 0x80c2)
      (throws_at 0x80c2 divide_fetched divide_entry divide_undefined)

-- The machine with other bytes behind its memory.
abbrev other_behind : CpuState
other_behind = record (machine 8) {
  memory = record (machine 8).memory { base_addr = λ i. if ltb i 128 then image i else 0xff };
}

same_cells : cells (machine 8).memory ≡ cells other_behind.memory
unfolding machine
same_cells = fun_ext λ k. ground arith

other-IsBytes : IsBytes other_behind.memory.base_addr
other-IsBytes k = ground (arith, image-IsBytes k)

steps_alike_example :
    ((steps 2 (machine 8)).0 ≡ (steps 2 other_behind).0)
    × ((steps 2 (machine 8)).1.registers ≡ (steps 2 other_behind).1.registers)
    × (cells (steps 2 (machine 8)).1.memory ≡ cells (steps 2 other_behind).1.memory)
steps_alike_example =
    steps_alike 2 (machine 8) other_behind refl same_cells (machine-IsValid 8 (omega arith)).memory
      other-IsBytes
