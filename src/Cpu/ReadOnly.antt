-- ===== src/Cpu/ReadOnly.antt =====
-- Which instructions leave the memory alone, and which the registers too.
use m68k_emu.Base.{arith, ℕ, ◌≡◌, ◌≢◌, refl, Bool, true, false}
use m68k_emu.Defines.{DataSize, reg_pc, reg_sr}
use m68k_emu.Memory.{BaseMemory}
use m68k_emu.Registers.{Registers}
use m68k_emu.CpuState.{CpuState}
use m68k_emu.CpuState.Keeps.{Keeps}
use m68k_emu.CpuState.Operands.{get_data}
use m68k_emu.CpuState.Store.{set_data}
use m68k_emu.CpuState.Frame.{Holds, Framed, holds_rules, framed_rules}
use m68k_emu.Instruction.Common.{advance, set_arithmetic_flags, set_compare_flags, set_logic_flags}
use m68k_emu.Instruction.Class.{
  Class, cmp, cmpa, cmpi, jmp, tst, lea, bit_shift, unlk, rts, nop, illegal, BitShiftType,
  arithmetic, BitShift,
}
use m68k_emu.Cpu.{execute}
use m68k_emu.Instruction.Cmp
use m68k_emu.Instruction.Cmpa
use m68k_emu.Instruction.Cmpi
use m68k_emu.Instruction.Tst
use m68k_emu.Instruction.Lea
use m68k_emu.Instruction.Jmp
use m68k_emu.Instruction.BitShift
use m68k_emu.Instruction.Unlk
use m68k_emu.Instruction.Rts
use m68k_emu.Instruction.Nop
use m68k_emu.Instruction.Illegal

-- The classes that only read the memory: no call of `setData` but that of Lea, on an address
-- register, and none of `memory.set` or `stackPush`.
abbrev pub reads_only : Class → Bool
reads_only (cmp f) = true
reads_only (cmpa f) = true
reads_only (cmpi f) = true
reads_only (tst f) = true
reads_only (lea f) = true
reads_only (jmp f) = true
reads_only (bit_shift f) = true
reads_only (unlk f) = true
reads_only rts = true
reads_only nop = true
reads_only illegal = true
reads_only _ = false

module _ {m : BaseMemory} where
  pub advance-Holds : Keeps (Holds m) advance
  unfolding advance
  advance-Holds = search holds_rules

  set_arithmetic_flags-Holds :
      (src_data dest_data result : ℕ) (size : DataSize)
      → Keeps (Holds m) (set_arithmetic_flags src_data dest_data result size)
  unfolding set_arithmetic_flags
  set_arithmetic_flags-Holds src_data dest_data result size = search holds_rules depth 9

  pub set_compare_flags-Holds :
      (src_data dest_data result : ℕ) (size : DataSize)
      → Keeps (Holds m) (set_compare_flags src_data dest_data result size)
  unfolding set_compare_flags
  set_compare_flags-Holds src_data dest_data result size = search holds_rules depth 9

  set_logic_flags-Holds :
      (result : ℕ) (size : DataSize) → Keeps (Holds m) (set_logic_flags result size)
  unfolding set_logic_flags
  set_logic_flags-Holds result size = search holds_rules depth 9

  ruleset rules = (
    holds_rules, advance-Holds, set_arithmetic_flags-Holds, set_compare_flags-Holds,
    set_logic_flags-Holds,
  )

  pub shifted-Holds :
      (type : BitShiftType) (left : Bool) (size : DataSize) (addr_data shift : ℕ)
      → Keeps (Holds m) (BitShift.shifted type left size addr_data shift)
  unfolding BitShift.shifted BitShift.set_carry_extend BitShift.shift_left BitShift.shift_right
      BitShift.rotate_extend_left BitShift.rotate_extend_right BitShift.rotate_left
      BitShift.rotate_right
  shifted-Holds arithmetic true size addr_data shift = search rules depth 9
  shifted-Holds arithmetic false size addr_data shift = search rules depth 9
  shifted-Holds _ true size addr_data shift = search rules depth 9
  shifted-Holds _ false size addr_data shift = search rules depth 9

  ruleset parts = (rules, shifted-Holds)

  execute-Holds : (c : Class) → reads_only c ≡ true → Keeps (Holds m) (execute c)
  unfolding execute set_data BitShift.shift_count Cmp.execute Cmpa.execute Cmpi.execute Tst.execute
      Lea.execute Jmp.execute BitShift.execute Unlk.execute Rts.execute Nop.execute Illegal.execute
  execute-Holds (cmp f) h = search parts depth 14
  execute-Holds (cmpa f) h = search parts depth 14
  execute-Holds (cmpi f) h = search parts depth 14
  execute-Holds (tst f) h = search parts depth 14
  execute-Holds (lea f) h = search parts depth 14
  execute-Holds (jmp f) h = search parts depth 14
  execute-Holds (bit_shift f) h = search parts depth 14
  execute-Holds (unlk f) h = search parts depth 14
  execute-Holds rts h = search parts depth 14
  execute-Holds nop h = search parts depth 14
  execute-Holds illegal h = search parts depth 14
  execute-Holds _ h = grind arith

-- Cmp, Cmpa, Cmpi, Tst, Lea, Jmp, BitShift, Unlk, Rts, Nop and Illegal leave the memory as it was,
-- whether they return or throw.
execute_memory :
    (c : Class) (s : CpuState) → reads_only c ≡ true → (execute c s).1.memory ≡ s.memory
execute_memory c s h = ((execute-Holds c h).at s (record { same = refl })).same

module _ {m : BaseMemory} {r : Registers} where
  advance-Framed : Keeps (Framed m r) advance
  unfolding advance
  advance-Framed = search framed_rules

  shifted-Framed :
      (type : BitShiftType) (left : Bool) (size : DataSize) (addr_data shift : ℕ)
      → Keeps (Framed m r) (BitShift.shifted type left size addr_data shift)
  unfolding BitShift.shifted BitShift.set_carry_extend BitShift.shift_left BitShift.shift_right
      BitShift.rotate_extend_left BitShift.rotate_extend_right BitShift.rotate_left
      BitShift.rotate_right
  shifted-Framed arithmetic true size addr_data shift = search framed_rules depth 9
  shifted-Framed arithmetic false size addr_data shift = search framed_rules depth 9
  shifted-Framed _ true size addr_data shift = search framed_rules depth 9
  shifted-Framed _ false size addr_data shift = search framed_rules depth 9

  shift_count-Framed : (f : BitShift) → Keeps (Framed m r) (BitShift.shift_count f)
  unfolding BitShift.shift_count get_data
  shift_count-Framed f = search framed_rules depth 9

  shift-Framed : (f : BitShift) → Keeps (Framed m r) (BitShift.execute f)
  unfolding BitShift.execute
  shift-Framed f =
      search (framed_rules, advance-Framed, shifted-Framed, shift_count-Framed) depth 14

-- A shift or rotation, whatever its operands, leaves the whole memory and every entry of the register
-- array but PC and the status register as they were: its result is stored nowhere.
pub shift-changes_no_operand :
    (f : BitShift) (s : CpuState)
    → (((BitShift.execute f s).1.memory ≡ s.memory)
        × ((i : ℕ)
            → i ≢ reg_pc
            → i ≢ reg_sr
            → (BitShift.execute f s).1.registers.reg_buffer i ≡ s.registers.reg_buffer i))
shift-changes_no_operand f s =
    let framed = (shift-Framed f).at s (record { memory = refl; others = λ i np ns. refl }) in
    (framed.memory, framed.others)
