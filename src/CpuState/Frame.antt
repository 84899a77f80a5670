-- ===== src/CpuState/Frame.antt =====
-- What the reads of src/cpu_state.cpp leave alone.
use m68k_emu.Base.{ℕ, ◌≡◌, ◌≢◌, ◌∙◌, Bool, arith}
use m68k_emu.Defines.{
  DataSize, long, RegisterType, reg_pc, reg_sr, StatusRegisterFlag, AddressingMode, direct_addr,
}
use m68k_emu.Registers
use m68k_emu.Registers.{Registers}
use m68k_emu.Registers.Flags
use m68k_emu.Memory.{BaseMemory}
use m68k_emu.CpuState.{CpuState, set_register, set_flag, stack_pop}
use m68k_emu.CpuState.Keeps.{Keeps, keeps_rules}
use m68k_emu.CpuState.Operands.{ext_reg_offset, get_control_address, get_data}
use m68k_emu.CpuState.Silent.{get_data_silent}

-- The memory is `m`.
pub record Holds (m : BaseMemory) (s : CpuState) : Type 0 where
  pub same : s.memory ≡ m

-- The memory is `m`, and the register array is `r` except at PC and the status register.
pub record Framed (m : BaseMemory) (r : Registers) (s : CpuState) : Type 0 where
  pub memory : s.memory ≡ m
  pub others : (i : ℕ) → i ≢ reg_pc → i ≢ reg_sr → s.registers.reg_buffer i ≡ r.reg_buffer i

module _ {m : BaseMemory} where
  pub set_register-Holds :
      (reg : RegisterType) (size : DataSize) (value : ℕ)
      → Keeps (Holds m) (set_register reg size value)
  unfolding set_register
  set_register-Holds reg size value = record { at = λ s h. record { same = h.same } }

  pub set_flag-Holds :
      (flag : StatusRegisterFlag) (value : Bool) → Keeps (Holds m) (set_flag flag value)
  unfolding set_flag
  set_flag-Holds flag value = record { at = λ s h. record { same = h.same } }

  pub ruleset holds_base = (keeps_rules, set_register-Holds, set_flag-Holds)

  pub ext_reg_offset-Holds : (ext_word : ℕ) → Keeps (Holds m) (ext_reg_offset ext_word)
  unfolding ext_reg_offset
  ext_reg_offset-Holds ext_word = search holds_base

  pub stack_pop-Holds : (size : DataSize) → Keeps (Holds m) (stack_pop size)
  unfolding stack_pop
  stack_pop-Holds size = search holds_base

  pub ruleset holds_index = (holds_base, ext_reg_offset-Holds)

  pub get_control_address-Holds :
      (mode : AddressingMode) (reg : RegisterType) (size : DataSize)
      → Keeps (Holds m) (get_control_address mode reg size)
  unfolding get_control_address
  get_control_address-Holds direct_addr reg size = search holds_index
  get_control_address-Holds _ reg size = search holds_index depth 9

  pub get_data-Holds :
      (mode : AddressingMode) (reg : RegisterType) (size : DataSize)
      → Keeps (Holds m) (get_data mode reg size)
  unfolding get_data
  get_data-Holds direct_addr reg size = search holds_index
  get_data-Holds _ reg size = search holds_index depth 9

  pub get_data_silent-Holds :
      (mode : AddressingMode) (reg : RegisterType) (size : DataSize)
      → Keeps (Holds m) (get_data_silent mode reg size)
  unfolding get_data_silent
  get_data_silent-Holds direct_addr reg size = search holds_index
  get_data_silent-Holds _ reg size = search holds_index depth 9

  pub ruleset holds_rules = (
    holds_base, stack_pop-Holds, get_control_address-Holds, get_data-Holds, get_data_silent-Holds,
  )

module _ {m : BaseMemory} {r : Registers} where
  pub set_pc-Framed : (value : ℕ) → Keeps (Framed m r) (set_register reg_pc long value)
  unfolding set_register Registers.set Registers.physical
  set_pc-Framed value = record {
    at = λ s h. record { memory = h.memory; others = λ i np ns. ground (arith, h.others i np ns) };
  }

  pub set_flag-Framed :
      (flag : StatusRegisterFlag) (value : Bool) → Keeps (Framed m r) (set_flag flag value)
  unfolding set_flag
  set_flag-Framed flag value = record {
    at = λ s h. record {
      memory = h.memory;
      others = λ i np ns. Flags.reg_buffer-set_flag s.registers flag value i ns ∙ h.others i np ns;
    };
  }

  pub ruleset framed_base = (keeps_rules, set_pc-Framed, set_flag-Framed)

  pub ext_reg_offset-Framed : (ext_word : ℕ) → Keeps (Framed m r) (ext_reg_offset ext_word)
  unfolding ext_reg_offset
  ext_reg_offset-Framed ext_word = search framed_base

  pub ruleset framed_index = (framed_base, ext_reg_offset-Framed)

  pub get_data_silent-Framed :
      (mode : AddressingMode) (reg : RegisterType) (size : DataSize)
      → Keeps (Framed m r) (get_data_silent mode reg size)
  unfolding get_data_silent
  get_data_silent-Framed direct_addr reg size = search framed_index
  get_data_silent-Framed _ reg size = search framed_index depth 9

  pub ruleset framed_rules = (framed_base, get_data_silent-Framed)
