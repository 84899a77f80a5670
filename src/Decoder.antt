-- ===== src/Decoder.antt =====
-- include/instruction_decoder.hpp and src/instruction_decoder.cpp: the table of 65536 decoded
-- instructions, and the look-up by opcode.
pub mod Table
pub mod Generated
pub mod Names
pub mod Shape
pub mod Counts
use m68k_emu.Base.{
  ℕ, zero, suc, ◌+◌, bit_and, ◌==◌, if◌then◌else◌, Option, none, some, List, [], ◌∷◌,
}
use m68k_emu.Base.Lists.{get_elem?}
use m68k_emu.Defines.{Result, ok, err, undefined}
use m68k_emu.Instruction.Class.{Instruction}
use m68k_emu.Instruction.Illegal
use m68k_emu.Decoder.Table.{MaskTableElement, opcode_mask_table}

-- The inner loop of `generateOpcodeTable`: the first row that fits ends it, and its instruction
-- replaces what is held if it is valid.
unfoldable pub candidate : List MaskTableElement → ℕ → Option Instruction → Option Instruction
candidate [] opcode held = held
candidate (e ∷ es) opcode held =
    let rest = candidate es opcode held in
    if bit_and opcode e.mask == e.value
    then (if (e.create_function opcode).is_valid then some (e.create_function opcode) else held)
    else rest

abbrev pub or_illegal : Option Instruction → ℕ → Instruction
or_illegal none opcode = Illegal.create opcode
or_illegal (some instruction) opcode = instruction

unfoldable pub entry : ℕ → Option Instruction → Instruction
entry opcode held = or_illegal (candidate opcode_mask_table opcode held) opcode

-- The outer loop, with `count` opcodes left. `push_back` moves `instruction` away, so the next
-- round begins with none.
unfoldable pub generate : ℕ → ℕ → Option Instruction → List Instruction
generate zero opcode held = []
generate (suc count) opcode held = entry opcode held ∷ generate count (opcode + 1) none

unfoldable pub opcode_table : List Instruction
opcode_table = generate 0x1_0000 0 none

abbrev pub found : Option Instruction → Result Instruction
found none = err undefined
found (some instruction) = ok instruction

-- `InstructionDecoder::Decode`; an index past the table would have no defined result.
unfoldable pub decode : ℕ → Result Instruction
decode opcode = found (get_elem? opcode_table opcode)
