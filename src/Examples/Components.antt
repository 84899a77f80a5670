-- ===== src/Examples/Components.antt =====
-- The theorems about memory, registers, the stack, the decoder and the run, at the machine.
use m68k_emu.Base.{
  ℕ, ◌≡◌, ◌≢◌, ◌+◌, ◌^◌, ◌%◌, ◌*◌, ◌/◌, arith, refl, true, false, ◌==◌, if◌then◌else◌, none, ◌↔◌,
  sext16, u16,
}
use m68k_emu.Defines.{
  DataSize, byte, word, long, reg_pc, abs_long, abs_word, ok, err, flag_zero, flag_carry,
  RegisterType, place,
}
use m68k_emu.Helpers.{mask_addr}
use m68k_emu.Registers
use m68k_emu.Registers.{Registers}
use m68k_emu.Registers.Access
use m68k_emu.Registers.Flags
use m68k_emu.Memory
use m68k_emu.Memory.{BaseMemory}
use m68k_emu.Memory.Errors.{Aligned, Fits, bus}
use m68k_emu.Memory.Access.{Apart, get-set_memory}
use m68k_emu.CpuState.{CpuState, ◌>>◌, stack_push, stack_pop}
use m68k_emu.Base.{inr}
use m68k_emu.Defines.{length_error, out_of_range}
use m68k_emu.Memory.{is_byte}
use m68k_emu.Memory.Errors.{access_refused}
use m68k_emu.Decoder.{decode, entry, candidate}
use m68k_emu.Decoder.Table.{opcode_mask_table}
use m68k_emu.Decoder.Generated.{decode_lem}
use m68k_emu.CpuState.Stack.{pop-push, top}
use m68k_emu.CpuState.Operands.{get_data}
use m68k_emu.CpuState.Silent.{get_data_silent}
use m68k_emu.Instruction.Class.{illegal}
use m68k_emu.Instruction.Illegal
use m68k_emu.Base.{◌-◌}
use m68k_emu.Base.Int.{◌+ℤ◌, ◌-ℤ◌}
use m68k_emu.Helpers.{is_overflow}
use m68k_emu.Helpers.Overflow.{to_signed, is_overflow-false_iff, is_overflow_difference}
use m68k_emu.CpuState.Agreement.{get_data_silent_lem, get_data_abs_word}
use m68k_emu.Examples.{machine, registers-IsValid, image-IsBytes, machine-IsValid, sp-machine, fits}

decode_lem_example : decode 0xd001 ≡ ok (entry 0xd001 none)
decode_lem_example = decode_lem 0xd001 (omega arith)

-- No row of the table fits this word.
unused_word : (entry (u16 0xffff) none).class ≡ illegal
unfolding entry candidate Illegal.create opcode_mask_table
unused_word = refl

not_a_byte : is_byte word ≢ true
not_a_byte = ground arith

access_refused_example :
    (Memory.get (machine 0).memory 127 word
      ≡ err (if bus 127 % 2 == 1 then length_error else out_of_range))
    × (Memory.set (machine 0).memory 127 word 5
        ≡ err (if bus 127 % 2 == 1 then length_error else out_of_range))
access_refused_example = access_refused (machine 0).memory 127 word 5 not_a_byte (inr refl)

get-set_memory_example :
    (m' : BaseMemory) × (Memory.set (machine 0).memory 64 long 0x1_2345_6789 ≡ ok m')
    × (Memory.get m' 64 long ≡ ok (0x1_2345_6789 % 2 ^ 32))
    × ((b : ℕ) (size' : DataSize)
        → Apart 64 long b size'
        → Memory.get m' b size' ≡ Memory.get (machine 0).memory b size')
unfolding machine
get-set_memory_example =
    get-set_memory (machine 0).memory 64 long 0x1_2345_6789 image-IsBytes (omega arith)
      (omega arith)

get-set_example : Registers.get (Registers.set (machine 0).registers 1 byte 0x1ff) 0 long ≡ (
    if Registers.physical (machine 0).registers 1 == Registers.physical (machine 0).registers 0
    then Registers.get (machine 0).registers 0 long / 2 ^ 8 * 2 ^ 8 + 0x1ff % 2 ^ 8
    else Registers.get (machine 0).registers 0 long)
get-set_example =
    Access.get-set (machine 0).registers 1 0 byte 0x1ff (registers-IsValid 0 (omega arith))
      (omega arith)

get_flag-set_flag_example :
    Registers.get_flag (Registers.set_flag (machine 0).registers flag_carry true) flag_zero ≡ (
      if place flag_carry == place flag_zero
      then true
      else Registers.get_flag (machine 0).registers flag_zero)
get_flag-set_flag_example =
    Flags.get_flag-set_flag (machine 0).registers flag_carry flag_zero true
      (omega (arith, (registers-IsValid 0 (omega arith)).status))

room-Aligned : Aligned (top word (machine 0)) word
room-Aligned = rw (sp-machine 0) refl

room-Fits : Fits (machine 0).memory.mem_size (top word (machine 0)) word
unfolding machine
room-Fits = rw (sp-machine 0) (fits 62 word (omega arith))

pop-push_example :
    (s' : CpuState) × ((stack_push word 0x1_0007 >> stack_pop word) (machine 0)
      ≡ (ok (0x1_0007 % 2 ^ 16), s'))
    × ((j : RegisterType)
        → Registers.get s'.registers j long ≡ Registers.get (machine 0).registers j long)
pop-push_example =
    pop-push word 0x1_0007 (machine 0) (machine-IsValid 0 (omega arith)) room-Aligned room-Fits

long-ne-word : abs_long ≢ abs_word
long-ne-word = ground arith

get_data_silent_lem_example :
    get_data_silent abs_long 0 word (machine 16)
    ≡ ((get_data abs_long 0 word (machine 16)).0, machine 16)
get_data_silent_lem_example = get_data_silent_lem abs_long 0 word (machine 16) long-ne-word

behind_pc :
    Memory.get (machine 16).memory (Registers.get (machine 16).registers reg_pc long) word
    ≡ ok 0x9000
unfolding machine Registers.get Registers.physical Registers.get_flag Memory.get Memory.check
    Memory.read_real_mem mask_addr
behind_pc = refl

get_data_abs_word_example :
    ((get_data abs_word 0 word (machine 16)).0 ≡ Memory.get (machine 16).memory 0x9000 word)
    × ((get_data_silent abs_word 0 word (machine 16)).0
        ≡ Memory.get (machine 16).memory (sext16 0x9000) word)
    × (bus 0x9000 ≢ bus (sext16 0x9000))
get_data_abs_word_example =
    get_data_abs_word 0 word (machine 16) behind_pc (omega arith) (omega arith)

is_overflow-false_iff_example :
    (is_overflow 100 100 byte ≡ false)
    ↔ (to_signed byte ((100 + 100) % 2 ^ 8) ≡ to_signed byte 100 +ℤ to_signed byte 100)
is_overflow-false_iff_example = is_overflow-false_iff 100 100 byte (omega arith) (omega arith)

is_overflow_difference_example :
    (is_overflow 100 100 byte ≡ true)
    × (to_signed byte ((100 + 2 ^ 8 - 100) % 2 ^ 8) ≡ to_signed byte 100 -ℤ to_signed byte 100)
is_overflow_difference_example =
    is_overflow_difference 100 100 byte (omega arith) (omega arith) (omega arith)
