-- ===== src/CpuState/Validity.antt =====
-- The well-formed machine states, and that every operation of src/cpu_state.cpp keeps them.
use m68k_emu.Base.{ℕ, ◌≡◌, ◌∙◌, Bool, refl}
use m68k_emu.Defines.{
  DataSize, RegisterType, StatusRegisterFlag, Result, ok, err, AddressingMode, direct_addr,
}
use m68k_emu.Registers.Access
use m68k_emu.Registers.Access.{set-IsValid}
use m68k_emu.Registers.Flags
use m68k_emu.Memory
use m68k_emu.Memory.{BaseMemory}
use m68k_emu.Memory.Access.{set-IsBytes}
use m68k_emu.Memory.Bytes.{IsBytes}
use m68k_emu.CpuState.{
  CpuState, set_register, set_flag, set_memory, replaced, stack_pop, stack_push,
}
use m68k_emu.CpuState.Keeps.{Keeps, keeps_rules}
use m68k_emu.CpuState.Operands.{ext_reg_offset, get_control_address, get_data}
use m68k_emu.CpuState.Silent.{get_data_silent}
use m68k_emu.CpuState.Store.{set_data}

-- Registers hold 32-bit words, the status register a 16-bit one, memory bytes, and the memory
-- has the given size.
pub record IsValid (mem_size : ℕ) (s : CpuState) : Type 0 where
  pub registers : Access.IsValid s.registers
  pub memory : IsBytes s.memory.base_addr
  pub size : s.memory.mem_size ≡ mem_size

module _ {n : ℕ} where
  pub set_register-IsValid :
      (reg : RegisterType) (size : DataSize) (value : ℕ)
      → Keeps (IsValid n) (set_register reg size value)
  unfolding set_register
  set_register-IsValid reg size value = record {
    at = λ s h. record {
      registers = set-IsValid s.registers reg size value h.registers;
      memory = h.memory;
      size = h.size;
    };
  }

  pub set_flag-IsValid :
      (flag : StatusRegisterFlag) (value : Bool) → Keeps (IsValid n) (set_flag flag value)
  unfolding set_flag
  set_flag-IsValid flag value = record {
    at = λ s h. record {
      registers = Flags.set_flag-IsValid s.registers flag value h.registers;
      memory = h.memory;
      size = h.size;
    };
  }

  pub set_memory-IsValid :
      (address : ℕ) (size : DataSize) (value : ℕ)
      → Keeps (IsValid n) (set_memory address size value)
  unfolding set_memory
  set_memory-IsValid address size value = record {
    at = λ s h. stores s h (Memory.set s.memory address size value) refl;
  }
    where
      stores :
          (s : CpuState) (h : IsValid n s) (r : Result BaseMemory)
          → Memory.set s.memory address size value ≡ r
          → IsValid n (replaced r s).1
      stores s h (ok m) e =
          let kept = set-IsBytes s.memory address size value h.memory e in
          record { registers = h.registers; memory = kept.0; size = kept.1 ∙ h.size }
      stores s h (err x) e = h

  pub ruleset validity_base =
      (keeps_rules, set_register-IsValid, set_flag-IsValid, set_memory-IsValid)

  pub stack_pop-IsValid : (size : DataSize) → Keeps (IsValid n) (stack_pop size)
  unfolding stack_pop
  stack_pop-IsValid size = search validity_base

  pub stack_push-IsValid : (size : DataSize) (value : ℕ) → Keeps (IsValid n) (stack_push size value)
  unfolding stack_push
  stack_push-IsValid size value = search validity_base

  pub ext_reg_offset-IsValid : (ext_word : ℕ) → Keeps (IsValid n) (ext_reg_offset ext_word)
  unfolding ext_reg_offset
  ext_reg_offset-IsValid ext_word = search validity_base

  ruleset validity_index = (validity_base, ext_reg_offset-IsValid)

  pub get_control_address-IsValid :
      (mode : AddressingMode) (reg : RegisterType) (size : DataSize)
      → Keeps (IsValid n) (get_control_address mode reg size)
  unfolding get_control_address
  get_control_address-IsValid direct_addr reg size = search validity_index
  get_control_address-IsValid _ reg size = search validity_index depth 9

  pub get_data-IsValid :
      (mode : AddressingMode) (reg : RegisterType) (size : DataSize)
      → Keeps (IsValid n) (get_data mode reg size)
  unfolding get_data
  get_data-IsValid direct_addr reg size = search validity_index
  get_data-IsValid _ reg size = search validity_index depth 9

  pub get_data_silent-IsValid :
      (mode : AddressingMode) (reg : RegisterType) (size : DataSize)
      → Keeps (IsValid n) (get_data_silent mode reg size)
  unfolding get_data_silent
  get_data_silent-IsValid direct_addr reg size = search validity_index
  get_data_silent-IsValid _ reg size = search validity_index depth 9

  pub set_data-IsValid :
      (mode : AddressingMode) (reg : RegisterType) (size : DataSize) (value : ℕ)
      → Keeps (IsValid n) (set_data mode reg size value)
  unfolding set_data
  set_data-IsValid direct_addr reg size value = search validity_index
  set_data-IsValid _ reg size value = search validity_index depth 9

  pub ruleset validity_rules = (
    validity_base, stack_pop-IsValid, stack_push-IsValid, get_control_address-IsValid,
    get_data-IsValid, get_data_silent-IsValid, set_data-IsValid,
  )
