-- ===== src/Examples/Instructions.antt =====
-- The theorems about instructions, at the machine.
use m68k_emu.Base.{◌≤◌, ◌⊎◌, ℕ, ◌≡◌, ◌≢◌, ◌<◌, ◌+◌, ◌^◌, ◌%◌, ◌*◌, ◌/◌, arith, refl, true, false}
use m68k_emu.Defines.{
  byte, word, long, reg_pc, indirect, direct_data, ok, err, undefined, RegisterType, reg_sr,
}
use m68k_emu.Helpers.{mask_addr}
use m68k_emu.Registers
use m68k_emu.Registers.{Registers}
use m68k_emu.Registers.Access
use m68k_emu.Memory
use m68k_emu.Memory.{BaseMemory}
use m68k_emu.Memory.Errors.{Aligned, Fits}
use m68k_emu.CpuState.{CpuState, ◌>>=◌, ◌>>◌}
use m68k_emu.CpuState.Validity.{IsValid}
use m68k_emu.CpuState.Stack.{top}
use m68k_emu.CpuState.Operands.{get_control_address}
use m68k_emu.Instruction.Class.{Dest, BitShift}
use m68k_emu.Instruction.Common.{advance}
use m68k_emu.Instruction.Jsr
use m68k_emu.Instruction.Rts
use m68k_emu.Base.{add32, sub32}
use m68k_emu.Cpu.ReadOnly.{shift-changes_no_operand}
use m68k_emu.Instruction.Class.{logical}
use m68k_emu.Instruction.Add
use m68k_emu.Instruction.Sub
use m68k_emu.Instruction.Cmp
use m68k_emu.Instruction.BitShift
use m68k_emu.Instruction.Div
use m68k_emu.Instruction.Mul
use m68k_emu.Base.{inl, xor}
use m68k_emu.Base.Int.{◌*ℤ◌, ◌+ℤ◌, int}
use m68k_emu.Instruction.Div.{is_minus, magnitude}
use m68k_emu.Instruction.Quotients.{quotient_signed}
use m68k_emu.Helpers.Overflow.{to_signed}
use m68k_emu.Instruction.Class.{bchg}
use m68k_emu.Instruction.Digits.{Replaced, left, manipulated, manipulate_lem}
use m68k_emu.Instruction.Products.{product_lem}
use m68k_emu.Instruction.Link
use m68k_emu.Instruction.Unlk
use m68k_emu.Instruction.Frames.{entered, unlk-link}
use m68k_emu.Instruction.Numbers.{quotient_unsigned}
use m68k_emu.Instruction.RegisterForms.{registers, Stores}
use m68k_emu.Instruction.RegisterForms.Arithmetic.{add_registers, sub_registers}
use m68k_emu.Instruction.Move
use m68k_emu.Instruction.RegisterForms.Transfer.{transfer, Moves, move_registers}
use m68k_emu.Instruction.RegisterForms.Compare.{Compares, cmp_registers}
use m68k_emu.Instruction.Subroutine.{target, rts-jsr}
use m68k_emu.Examples.{machine, registers-IsValid, machine-IsValid, fits}

-- The target of JSR (A0) at 0.
abbrev through_a0 : Dest
through_a0 = record { dest_mode = indirect; dest_reg = 8; data_size = long }

abbrev past_call : CpuState
past_call = record (machine 0) { registers = Registers.set (machine 0).registers reg_pc long 2 }

target-machine : target through_a0 (machine 0) ≡ (ok 32, past_call)
unfolding machine target advance get_control_address ◌>>=◌ Registers.get Registers.set
    Registers.physical Registers.get_flag
target-machine = refl

past_call-IsValid : IsValid 128 past_call
past_call-IsValid = record {
  registers =
      Access.set-IsValid (machine 0).registers reg_pc long 2 (registers-IsValid 0 (omega arith));
  memory = (machine-IsValid 0 (omega arith)).memory;
  size = (machine-IsValid 0 (omega arith)).size;
}

sp-past_call : Registers.get past_call.registers 15 long ≡ 64
unfolding machine Registers.get Registers.set Registers.physical Registers.get_flag
sp-past_call = refl

call-Aligned : Aligned (top long past_call) long
call-Aligned = rw sp-past_call refl

call-Fits : Fits past_call.memory.mem_size (top long past_call) long
unfolding machine
call-Fits = rw sp-past_call (fits 60 long (omega arith))

rts-jsr_example :
    (s' : CpuState) × ((Jsr.execute through_a0 >> Rts.execute) (machine 0) ≡ (ok tt, s'))
    × ((j : RegisterType)
        → Registers.get s'.registers j long ≡ Registers.get past_call.registers j long)
rts-jsr_example =
    rts-jsr through_a0 (machine 0) past_call 32 target-machine past_call-IsValid call-Aligned
      call-Fits

entered-sp : Registers.get (entered (machine 0)).registers 15 long ≡ 64
unfolding machine Registers.get Registers.set Registers.physical Registers.get_flag
entered-sp = refl

behind_link :
    Memory.get (machine 0).memory (add32 (Registers.get (machine 0).registers reg_pc long) 2) word
    ≡ ok 2
unfolding machine Registers.get Registers.physical Registers.get_flag Memory.get Memory.check
    Memory.read_real_mem mask_addr
behind_link = refl

frame-Aligned : Aligned (top long (entered (machine 0))) long
frame-Aligned = rw entered-sp refl

frame-Fits : Fits (machine 0).memory.mem_size (top long (entered (machine 0))) long
unfolding machine
frame-Fits = rw entered-sp (fits 60 long (omega arith))

unlk-link_example :
    (s' : CpuState) × ((Link.execute 8 >> Unlk.execute 8) (machine 0) ≡ (ok tt, s'))
    × ((j : RegisterType)
        → j < 16
        → Registers.get s'.registers j long ≡ Registers.get (machine 0).registers j long)
unlk-link_example =
    unlk-link 8 2 (machine 0) (machine-IsValid 0 (omega arith)) (omega arith) behind_link
      frame-Aligned frame-Fits

add_registers_example :
    (s' : CpuState) × (Add.execute (registers byte 1 0) (machine 8) ≡ (ok tt, s'))
    × Stores byte 0
        (Registers.get (machine 8).registers 1 byte)
        (Registers.get (machine 8).registers 0 byte)
        (add32
          (Registers.get (machine 8).registers 1 byte)
          (Registers.get (machine 8).registers 0 byte))
        (machine 8)
        s'
add_registers_example =
    add_registers byte 1 0 (machine 8) (registers-IsValid 8 (omega arith)) (omega arith)
      (omega arith)

sub_registers_example :
    (s' : CpuState) × (Sub.execute (registers word 0 1) (machine 8) ≡ (ok tt, s'))
    × Stores word 1
        (Registers.get (machine 8).registers 0 word)
        (Registers.get (machine 8).registers 1 word)
        (sub32
          (Registers.get (machine 8).registers 1 word)
          (Registers.get (machine 8).registers 0 word))
        (machine 8)
        s'
sub_registers_example =
    sub_registers word 0 1 (machine 8) (registers-IsValid 8 (omega arith)) (omega arith)
      (omega arith)

move_registers_example :
    (s' : CpuState) × (Move.execute (transfer word 0 1) (machine 8) ≡ (ok tt, s'))
    × Moves word 1 (Registers.get (machine 8).registers 0 word) (machine 8) s'
move_registers_example =
    move_registers word 0 1 (machine 8) (registers-IsValid 8 (omega arith)) (omega arith)
      (omega arith)

cmp_registers_example :
    (s' : CpuState) × (Cmp.execute (registers word 0 1) (machine 8) ≡ (ok tt, s'))
    × Compares word
        (Registers.get (machine 8).registers 0 word)
        (Registers.get (machine 8).registers 1 word)
        (machine 8)
        s'
cmp_registers_example =
    cmp_registers word 0 1 (machine 8) (registers-IsValid 8 (omega arith)) (omega arith)
      (omega arith)

-- LSL.B #2, D0.
abbrev lsl_d0 : BitShift
lsl_d0 = record {
  addr_mode = direct_data;
  addr_reg = 0;
  shift_reg = 0;
  imm_shift = 2;
  direction_left = true;
  is_imm = true;
  is_memory = false;
  instruction_type = logical;
  data_size = byte;
}

shift-changes_no_operand_example :
    ((BitShift.execute lsl_d0 (machine 8)).1.memory ≡ (machine 8).memory)
    × ((i : ℕ)
        → i ≢ reg_pc
        → i ≢ reg_sr
        → (BitShift.execute lsl_d0 (machine 8)).1.registers.reg_buffer i
          ≡ (machine 8).registers.reg_buffer i)
shift-changes_no_operand_example = shift-changes_no_operand lsl_d0 (machine 8)

quotient_unsigned_example :
    (7 * (Div.quotient false 100 7 % 2 ^ 16) + Div.quotient false 100 7 / 2 ^ 16 ≡ 100)
    × (Div.quotient false 100 7 / 2 ^ 16 < 7)
quotient_unsigned_example = quotient_unsigned 100 7 (omega arith) (omega arith) (omega arith)

-- BCHG at place 3 of 13.
manipulate_lem_example : Replaced 13 3 (left bchg (13 / 2 ^ 3 % 2)) (manipulated bchg 13 3)
manipulate_lem_example = manipulate_lem bchg 13 3 (omega arith) (omega arith)

-- MULS and MULU of 0xfffe and 3.
product_lem_example :
    ((r : ℕ) × (Mul.product true 0xfffe 3 ≡ ok r)
      × (to_signed long r ≡ to_signed word 0xfffe *ℤ to_signed word 3))
    × ((Mul.product false 0xfffe 3 ≡ ok (0xfffe * 3))
        ⊎ ((Mul.product false 0xfffe 3 ≡ err undefined) × (2 ^ 31 ≤ 0xfffe * 3)))
product_lem_example = product_lem 0xfffe 3 (omega arith) (omega arith)

-- DIVS of -100 by 7.
quotient_signed_example :
    (to_signed word (Div.quotient true 0xff9c 7 % 2 ^ 16)
      ≡ int (xor (is_minus 0xff9c) (is_minus 7)) (magnitude 0xff9c / magnitude 7))
    × (to_signed word (Div.quotient true 0xff9c 7 / 2 ^ 16)
        ≡ int (is_minus 0xff9c) (magnitude 0xff9c % magnitude 7))
    × (to_signed word (Div.quotient true 0xff9c 7 % 2 ^ 16) *ℤ to_signed word 7
          +ℤ to_signed word (Div.quotient true 0xff9c 7 / 2 ^ 16)
        ≡ to_signed word 0xff9c)
quotient_signed_example =
    quotient_signed 0xff9c 7 (omega arith) (omega arith) (omega arith) (inl (ground arith))
