-- ===== src/Examples.antt =====
-- A machine for the examples: 128 bytes of memory, the stack at 64, the program at 0.
pub mod Components
pub mod Instructions
mod Printing
mod Running
mod Failing
mod Programs
use m68k_emu.Base.{
  ℕ, ⊤, ◌≡◌, ◌≢◌, ◌<◌, ◌+◌, ◌^◌, ◌%◌, ◌*◌, ◌/◌, ◌≤◌, arith, refl, Bool, true, false, inl, ◌==◌,
  if◌then◌else◌, none, ◌↔◌, sext16, u16,
}
use m68k_emu.Defines.{
  DataSize, byte, word, long, bytes, reg_pc, abs_long, abs_word, indirect, direct_data, ok, err,
  flag_zero, flag_carry, equal, cond_true, cond_false, invalid_argument, RegisterType, reg_sr,
  place, AddressingMode,
}
use m68k_emu.Helpers.{mask_addr}
use m68k_emu.Registers
use m68k_emu.Registers.{Registers}
use m68k_emu.Registers.Access
use m68k_emu.Registers.Flags
use m68k_emu.Memory
use m68k_emu.Memory.{BaseMemory}
use m68k_emu.Memory.Errors.{Aligned, Fits, bus}
use m68k_emu.Memory.Access.{Apart, get-set_memory}
use m68k_emu.Memory.Bytes.{IsBytes}
use m68k_emu.CpuState.{CpuState, ◌>>=◌, ◌>>◌, stack_push, stack_pop}
use m68k_emu.CpuState.Validity.{IsValid}
use m68k_emu.Cpu.{step, steps}
use m68k_emu.Decoder.{decode, entry, candidate}
use m68k_emu.Decoder.Table.{opcode_mask_table}
use m68k_emu.Decoder.Generated
use m68k_emu.Decoder.Generated.{decode_lem}
use m68k_emu.CpuState.Stack.{pop-push, top}
use m68k_emu.CpuState.Operands.{get_control_address, get_data}
use m68k_emu.CpuState.Silent.{get_data_silent}
use m68k_emu.Instruction.Class.{Dest, Operands, Bcc, BitShift, illegal}
use m68k_emu.Instruction.Common.{advance}
use m68k_emu.Instruction.Illegal
use m68k_emu.Instruction.Jsr
use m68k_emu.Instruction.Rts
use m68k_emu.Base.{add32, sub32, sext8, not, ◌-◌}
use m68k_emu.Base.Int.{◌+ℤ◌, ◌-ℤ◌}
use m68k_emu.Defines.{not_equal}
use m68k_emu.Helpers.{is_overflow}
use m68k_emu.Helpers.Overflow.{to_signed, is_overflow-false_iff, is_overflow_difference}
use m68k_emu.CpuState.{check_condition}
use m68k_emu.CpuState.Agreement.{get_data_silent_lem, get_data_abs_word}
use m68k_emu.Cpu
use m68k_emu.Cpu.ReadOnly.{shift-changes_no_operand}
use m68k_emu.Instruction.Class.{cmp, logical}
use m68k_emu.Instruction.Add
use m68k_emu.Instruction.Sub
use m68k_emu.Instruction.Cmp
use m68k_emu.Instruction.Bcc
use m68k_emu.Instruction.BitShift
use m68k_emu.Instruction.Div
use m68k_emu.Instruction.Link
use m68k_emu.Instruction.Unlk
use m68k_emu.Instruction.Frames.{entered, unlk-link}
use m68k_emu.Instruction.Numbers.{quotient_unsigned}
use m68k_emu.Instruction.RegisterForms.{registers, past, Stores}
use m68k_emu.Instruction.RegisterForms.Arithmetic.{add_registers, sub_registers}
use m68k_emu.Instruction.RegisterForms.Compare.{Compares, cmp_registers}
use m68k_emu.Instruction.Subroutine.{target, rts-jsr}

-- LINK A0, #2 at 0, ADD.B D1, D0 at 8, an address word from 0x8000 up at 16, and RTS at 32.
abbrev pub image : ℕ → ℕ
image i =
    if i == 0
    then 0x4e
    else if i == 1
    then 0x50
    else if i == 3
    then 2
    else if i == 8
    then 0xd0
    else if i == 9
    then 0x01
    else if i == 16
    then 0x90
    else if i == 32
    then 0x4e
    else if i == 33
    then 0x75
    else 0

abbrev pub entries : ℕ → ℕ → ℕ
entries pc i =
    if i == 0
    then 200
    else if i == 1
    then 100
    else if i == 8
    then 32
    else if i == 15
    then 64
    else if i == 17
    then pc
    else 0

-- The machine with its program counter at a place.
pub machine : ℕ → CpuState
machine pc = record {
  memory = record { base_addr = image; mem_size = 128 };
  registers = record { reg_buffer = entries pc };
}

pub registers-IsValid : (pc : ℕ) → pc < 128 → Access.IsValid (machine pc).registers
unfolding machine
registers-IsValid pc h = record { words = λ i. ground arith; status = omega arith }

pub image-IsBytes : IsBytes image
image-IsBytes i = ground arith

pub machine-IsValid : (pc : ℕ) → pc < 128 → IsValid 128 (machine pc)
unfolding machine
machine-IsValid pc h = record {
  registers = registers-IsValid pc h;
  memory = image-IsBytes;
  size = refl;
}

-- Facts of this machine, by computation.
pub sp-machine : (pc : ℕ) → Registers.get (machine pc).registers 15 long ≡ 64
unfolding machine Registers.get Registers.physical Registers.get_flag
sp-machine pc = refl

pub displacement : Memory.get (machine 0).memory 2 word ≡ ok 2
unfolding machine Memory.get Memory.check Memory.read_real_mem mask_addr
displacement = refl

pub address_word : Memory.get (machine 16).memory 16 word ≡ ok 0x9000
unfolding machine Memory.get Memory.check Memory.read_real_mem mask_addr
address_word = refl

pub fits : (at : ℕ) (size : DataSize) → at < 100 → Fits 128 at size
fits at byte h = omega arith
fits at word h = omega arith
fits at long h = omega arith
