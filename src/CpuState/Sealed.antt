-- ===== src/CpuState/Sealed.antt =====
-- What no operation of src/cpu_state.cpp reaches: the places behind the register array, and the
-- system half of the status register.
use m68k_emu.Base.{ℕ, ◌≡◌, ◌∙◌, ◌/◌, ◌^◌, ◌<◌, ◌≤◌, Bool, true, false, ap, arith}
use m68k_emu.Defines.{
  DataSize, long, RegisterType, reg_pc, reg_usp, reg_sr, regs_count, StatusRegisterFlag, flag_carry,
  flag_overflow, flag_zero, flag_negative, flag_extend, place, AddressingMode, direct_addr, Result,
  ok, err,
}
use m68k_emu.Registers
use m68k_emu.Registers.{Registers}
use m68k_emu.Registers.Access
use m68k_emu.Registers.Flags
use m68k_emu.Memory
use m68k_emu.Memory.{BaseMemory}
use m68k_emu.CpuState.{
  CpuState, set_register, set_flag, set_memory, replaced, stack_pop, stack_push,
}
use m68k_emu.CpuState.Keeps.{Keeps, keeps_rules}
use m68k_emu.CpuState.Operands.{ext_reg_offset, get_control_address, get_data}
use m68k_emu.CpuState.Silent.{get_data_silent}
use m68k_emu.CpuState.Store.{set_data}

-- Beside the register values being words: the entries from `REGS_COUNT` on are those of `r`, and
-- so are the digits of the status register from 5 up (supervisor, trace, the interrupt mask).
pub record Sealed (r : Registers) (s : CpuState) : Type 0 where
  pub valid : Access.IsValid s.registers
  pub behind : (i : ℕ) → regs_count ≤ i → s.registers.reg_buffer i ≡ r.reg_buffer i
  pub system : s.registers.reg_buffer reg_sr / 2 ^ 5 ≡ r.reg_buffer reg_sr / 2 ^ 5

-- A register that an instruction may name as its operand, or the program counter.
abbrev pub Ordinary : RegisterType → Type 0
Ordinary reg = reg < reg_sr

-- The flags of the lower byte, which stand for conditions.
abbrev pub Condition : StatusRegisterFlag → Type 0
Condition flag = place flag < 5

put_digit-upper :
    (f : StatusRegisterFlag) (sr b : ℕ)
    → Condition f
    → b < 2
    → Flags.put_digit sr (place f) b / 2 ^ 5 ≡ sr / 2 ^ 5
put_digit-upper flag_carry sr b h hb = omega arith
put_digit-upper _ sr b h hb = omega arith

bit-lt : (b : Bool) → Flags.bit b < 2
bit-lt true = omega arith
bit-lt false = omega arith

set_flag-upper :
    (f : StatusRegisterFlag) (r : Registers) (value : Bool)
    → Condition f
    → Access.IsValid r
    → (Registers.set_flag r f value).reg_buffer reg_sr / 2 ^ 5 ≡ r.reg_buffer reg_sr / 2 ^ 5
unfolding Registers.set_flag
set_flag-upper f r value h v =
    rw (Flags.with_flag_lem f (r.reg_buffer reg_sr) value (omega (arith, v.status)))
      (put_digit-upper f (r.reg_buffer reg_sr) (Flags.bit value) h (bit-lt value))

-- A write of an ordinary register reaches an entry below the status register.
set-entry :
    (r : Registers) (reg i : RegisterType) (size : DataSize) (value : ℕ)
    → Ordinary reg
    → reg_sr ≤ i
    → (Registers.set r reg size value).reg_buffer i ≡ r.reg_buffer i
unfolding Registers.set Registers.physical
set-entry r reg i size value h hi = ground arith

module _ {r : Registers} where
  pub set_register-Sealed :
      (reg : RegisterType) (size : DataSize) (value : ℕ)
      → Ordinary reg
      → Keeps (Sealed r) (set_register reg size value)
  unfolding set_register
  set_register-Sealed reg size value h = record {
    at = λ s v. record {
      valid = Access.set-IsValid s.registers reg size value v.valid;
      behind = λ i hi. set-entry s.registers reg i size value h (omega arith) ∙ v.behind i hi;
      system =
          ap (λ x. x / 2 ^ 5) (set-entry s.registers reg reg_sr size value h (omega arith))
          ∙ v.system;
    };
  }

  pub set_flag-Sealed :
      (flag : StatusRegisterFlag) (value : Bool)
      → Condition flag
      → Keeps (Sealed r) (set_flag flag value)
  unfolding set_flag
  set_flag-Sealed flag value h = record {
    at = λ s v. record {
      valid = Flags.set_flag-IsValid s.registers flag value v.valid;
      behind =
          λ i hi. Flags.reg_buffer-set_flag s.registers flag value i (omega arith) ∙ v.behind i hi;
      system = set_flag-upper flag s.registers value h v.valid ∙ v.system;
    };
  }

  pub set_pc-Sealed : (value : ℕ) → Keeps (Sealed r) (set_register reg_pc long value)
  set_pc-Sealed value = set_register-Sealed reg_pc long value (omega arith)

  pub set_usp-Sealed : (value : ℕ) → Keeps (Sealed r) (set_register reg_usp long value)
  set_usp-Sealed value = set_register-Sealed reg_usp long value (omega arith)

  pub set_carry-Sealed : (value : Bool) → Keeps (Sealed r) (set_flag flag_carry value)
  set_carry-Sealed value = set_flag-Sealed flag_carry value (omega arith)

  pub set_overflow-Sealed : (value : Bool) → Keeps (Sealed r) (set_flag flag_overflow value)
  set_overflow-Sealed value = set_flag-Sealed flag_overflow value (omega arith)

  pub set_zero-Sealed : (value : Bool) → Keeps (Sealed r) (set_flag flag_zero value)
  set_zero-Sealed value = set_flag-Sealed flag_zero value (omega arith)

  pub set_negative-Sealed : (value : Bool) → Keeps (Sealed r) (set_flag flag_negative value)
  set_negative-Sealed value = set_flag-Sealed flag_negative value (omega arith)

  pub set_extend-Sealed : (value : Bool) → Keeps (Sealed r) (set_flag flag_extend value)
  set_extend-Sealed value = set_flag-Sealed flag_extend value (omega arith)

  pub set_memory-Sealed :
      (address : ℕ) (size : DataSize) (value : ℕ) → Keeps (Sealed r) (set_memory address size value)
  unfolding set_memory
  set_memory-Sealed address size value = record {
    at = λ s v. stores s v (Memory.set s.memory address size value);
  }
    where
      stores : (s : CpuState) (v : Sealed r s) (m : Result BaseMemory) → Sealed r (replaced m s).1
      stores s v (ok m) = record { valid = v.valid; behind = v.behind; system = v.system }
      stores s v (err x) = v

  pub ruleset sealed_base = (
    keeps_rules, set_register-Sealed, set_pc-Sealed, set_usp-Sealed, set_carry-Sealed,
    set_overflow-Sealed, set_zero-Sealed, set_negative-Sealed, set_extend-Sealed, set_memory-Sealed,
  )

  pub stack_pop-Sealed : (size : DataSize) → Keeps (Sealed r) (stack_pop size)
  unfolding stack_pop
  stack_pop-Sealed size = search sealed_base

  pub stack_push-Sealed : (size : DataSize) (value : ℕ) → Keeps (Sealed r) (stack_push size value)
  unfolding stack_push
  stack_push-Sealed size value = search sealed_base

  pub ext_reg_offset-Sealed : (ext_word : ℕ) → Keeps (Sealed r) (ext_reg_offset ext_word)
  unfolding ext_reg_offset
  ext_reg_offset-Sealed ext_word = search sealed_base

  ruleset sealed_index = (sealed_base, ext_reg_offset-Sealed)

  pub get_control_address-Sealed :
      (mode : AddressingMode) (reg : RegisterType) (size : DataSize)
      → Keeps (Sealed r) (get_control_address mode reg size)
  unfolding get_control_address
  get_control_address-Sealed direct_addr reg size = search sealed_index
  get_control_address-Sealed _ reg size = search sealed_index depth 9

  pub get_data-Sealed :
      (mode : AddressingMode) (reg : RegisterType) (size : DataSize)
      → Ordinary reg
      → Keeps (Sealed r) (get_data mode reg size)
  unfolding get_data
  get_data-Sealed direct_addr reg size h = search sealed_index
  get_data-Sealed _ reg size h = search sealed_index depth 9

  pub get_data_silent-Sealed :
      (mode : AddressingMode) (reg : RegisterType) (size : DataSize)
      → Keeps (Sealed r) (get_data_silent mode reg size)
  unfolding get_data_silent
  get_data_silent-Sealed direct_addr reg size = search sealed_index
  get_data_silent-Sealed _ reg size = search sealed_index depth 9

  pub set_data-Sealed :
      (mode : AddressingMode) (reg : RegisterType) (size : DataSize) (value : ℕ)
      → Ordinary reg
      → Keeps (Sealed r) (set_data mode reg size value)
  unfolding set_data
  set_data-Sealed direct_addr reg size value h = search sealed_index
  set_data-Sealed _ reg size value h = search sealed_index depth 9

  pub ruleset sealed_rules = (
    sealed_base, stack_pop-Sealed, stack_push-Sealed, get_control_address-Sealed, get_data-Sealed,
    get_data_silent-Sealed, set_data-Sealed,
  )
