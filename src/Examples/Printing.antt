-- ===== src/Examples/Printing.antt =====
-- The theorems about the disassembler and the register numbers, at the machine.
use m68k_emu.Base.{ℕ, ◌≡◌, ◌≢◌, ◌/◌, ◌^◌, ◌≤◌, arith, refl, true, none}
use m68k_emu.Defines.{word, direct_data, abs_word, reg_pc, reg_sr, regs_count}
use m68k_emu.Helpers.{mask_32, mask_above_32, mask_addr, is_memory_alterable}
use m68k_emu.Registers
use m68k_emu.Memory
use m68k_emu.CpuState.{◌>>=◌}
use m68k_emu.CpuState.Operands.{get_data}
use m68k_emu.CpuState.Store.{set_data}
use m68k_emu.Instruction.Class.{add, cmp}
use m68k_emu.Instruction.RegisterForms.{registers}
use m68k_emu.CpuState.Silent.{get_data_silent}
use m68k_emu.Instruction.Class.{Operands}
use m68k_emu.Instruction.Common.{advance, set_arithmetic_flags}
use m68k_emu.Instruction.Add
use m68k_emu.Decoder.{entry}
use m68k_emu.Decoder.Names.{Named}
use m68k_emu.Decoder.Shape.{entry-Named}
use m68k_emu.Disassembler.Agreement.{is_ok, counter}
use m68k_emu.Cpu.{execute, steps}
use m68k_emu.Cpu.Disassembly.{disassembly, disassembly_frame}
use m68k_emu.Cpu.Length.{disassembly-execute}
use m68k_emu.Cpu.Isolation.{steps_isolated}
use m68k_emu.Examples.{machine, registers-IsValid}

entry-Named_example : Named (entry 0xd041 none)
entry-Named_example = entry-Named 0xd041

steps_isolated_example :
    ((i : ℕ)
      → regs_count ≤ i
      → (steps 3 (machine 8)).1.registers.reg_buffer i ≡ (machine 8).registers.reg_buffer i)
    × ((steps 3 (machine 8)).1.registers.reg_buffer reg_sr / 2 ^ 5
        ≡ (machine 8).registers.reg_buffer reg_sr / 2 ^ 5)
steps_isolated_example = steps_isolated 3 (machine 8) (registers-IsValid 8 (omega arith))

disassembly_frame_example :
    ((disassembly (cmp (registers word 0 1)) (machine 8)).1.memory ≡ (machine 8).memory)
    × ((i : ℕ)
        → i ≢ reg_pc
        → (disassembly (cmp (registers word 0 1)) (machine 8)).1.registers.reg_buffer i
          ≡ (machine 8).registers.reg_buffer i)
disassembly_frame_example = disassembly_frame (cmp (registers word 0 1)) (machine 8)

-- ADD.W from the address that the word behind the opcode names, into D0.
abbrev add_absolute : Operands
add_absolute = record {
  dest_mode = direct_data;
  dest_reg = 0;
  src_mode = abs_word;
  src_reg = 0;
  data_size = word;
}

executes : is_ok (execute (add add_absolute) (machine 8)).0 ≡ true
unfolding machine execute Add.execute advance get_data get_data_silent set_data set_arithmetic_flags
    ◌>>=◌ Registers.get Registers.set Registers.physical Registers.get_flag Memory.get Memory.check
    Memory.read_real_mem mask_addr mask_above_32 mask_32
executes = refl

alters : is_memory_alterable direct_data ≡ true
unfolding is_memory_alterable
alters = refl

disassembly-execute_example :
    (is_ok (disassembly (add add_absolute) (machine 8)).0 ≡ true)
    × (counter (disassembly (add add_absolute) (machine 8)).1
        ≡ counter (execute (add add_absolute) (machine 8)).1)
disassembly-execute_example =
    disassembly-execute (add add_absolute) (machine 8) (omega arith, omega arith, alters) executes
