-- ===== src/CpuState/Definedness.antt =====
-- Actions that never meet an operation to which C++ gives no meaning.
use m68k_emu.Base.{ℕ, ◌≡◌, ◌≢◌, ◌∙◌, arith, refl, Bool, true, false, if◌then◌else◌}
use m68k_emu.Defines.{
  DataSize, RegisterType, StatusRegisterFlag, Error, undefined, Result, ok, err, AddressingMode,
  direct_addr, indirect_index, Condition,
}
use m68k_emu.Memory
use m68k_emu.Memory.{BaseMemory, check, get, set}
use m68k_emu.CpuState.{
  CpuState, Action, pure, throw, lift, continue, get_register, set_register, get_flag, set_flag,
  get_memory, set_memory, replaced, stack_pop, stack_push, check_condition, ◌>>=◌,
}
use m68k_emu.CpuState.Operands.{ext_reg_offset, get_control_address, get_data}
use m68k_emu.CpuState.Silent.{get_data_silent}
use m68k_emu.CpuState.Store.{set_data}

pub record Defined {A : Type 0} (m : Action A) : Type 0 where
  pub at : (s : CpuState) → (m s).0 ≢ err undefined

module _ {A : Type 0} where
  pub Defined-pure : (a : A) → Defined (pure a)
  unfolding pure
  Defined-pure a = record { at = λ s h. cc h }

  pub Defined-throw : (e : Error) → e ≢ undefined → Defined {A = A} (throw e)
  unfolding throw
  Defined-throw e n = record { at = λ s h. n (cc h) }

  pub Defined-lift : (r : Result A) → r ≢ err undefined → Defined (lift r)
  unfolding lift
  Defined-lift r n = record { at = λ s h. n h }

  pub Defined-if :
      (b : Bool) (m k : Action A) → Defined m → Defined k → Defined (if b then m else k)
  Defined-if true m k hm hk = hm
  Defined-if false m k hm hk = hk

pub Defined-bind :
    {A B : Type 0} (m : Action A) (f : A → Action B)
    → Defined m
    → ((a : A) → Defined (f a))
    → Defined (m >>= f)
unfolding ◌>>=◌
Defined-bind {A} m f hm hf = record { at = λ s h. next (m s).0 (m s).1 (hm.at s) h }
  where
    next : (r : Result A) (s' : CpuState) → r ≢ err undefined → (continue r f s').0 ≢ err undefined
    next (ok a) s' n = (hf a).at s'
    next (err x) s' n = λ h. n (cc h)

-- What returns a known value binds it.
pub Defined-bind_pure :
    {A B : Type 0} (m : Action A) (f : A → Action B) (a : A)
    → m ≡ pure a
    → Defined (f a)
    → Defined (m >>= f)
unfolding ◌>>=◌
Defined-bind_pure m f a e h = rw e (record { at = h.at })

check-defined :
    (mem_size address : ℕ) (size : DataSize) → check mem_size address size ≢ err undefined
unfolding check
check-defined mem_size address size h = ground (arith, h)

pub Defined-get_register : (reg : RegisterType) (size : DataSize) → Defined (get_register reg size)
unfolding get_register
Defined-get_register reg size = record { at = λ s h. cc h }

pub Defined-set_register :
    (reg : RegisterType) (size : DataSize) (value : ℕ) → Defined (set_register reg size value)
unfolding set_register
Defined-set_register reg size value = record { at = λ s h. cc h }

pub Defined-get_flag : (flag : StatusRegisterFlag) → Defined (get_flag flag)
unfolding get_flag
Defined-get_flag flag = record { at = λ s h. cc h }

pub Defined-set_flag : (flag : StatusRegisterFlag) (value : Bool) → Defined (set_flag flag value)
unfolding set_flag
Defined-set_flag flag value = record { at = λ s h. cc h }

pub get-defined :
    (m : BaseMemory) (address : ℕ) (size : DataSize) → get m address size ≢ err undefined
unfolding get
get-defined m address size = outcome (check m.mem_size address size) refl
  where
    outcome :
        (r : Result ℕ) → check m.mem_size address size ≡ r → get m address size ≢ err undefined
    outcome (ok at) e = rw (get, e) (λ h. cc h)
    outcome (err x) e = rw (get, e) (λ h. check-defined m.mem_size address size (e ∙ cc h))

set-defined :
    (m : BaseMemory) (address : ℕ) (size : DataSize) (value : ℕ)
    → set m address size value ≢ err undefined
unfolding set
set-defined m address size value = outcome (check m.mem_size address size) refl
  where
    outcome :
        (r : Result ℕ)
        → check m.mem_size address size ≡ r
        → set m address size value ≢ err undefined
    outcome (ok at) e = rw (set, e) (λ h. cc h)
    outcome (err x) e = rw (set, e) (λ h. check-defined m.mem_size address size (e ∙ cc h))

pub Defined-get_memory : (address : ℕ) (size : DataSize) → Defined (get_memory address size)
unfolding get_memory
Defined-get_memory address size = record { at = λ s. get-defined s.memory address size }

pub Defined-set_memory :
    (address : ℕ) (size : DataSize) (value : ℕ) → Defined (set_memory address size value)
unfolding set_memory
Defined-set_memory address size value = record {
  at = λ s.
      outcome s (Memory.set s.memory address size value) (set-defined s.memory address size value);
}
  where
    outcome :
        (s : CpuState) (r : Result BaseMemory)
        → r ≢ err undefined
        → (replaced r s).0 ≢ err undefined
    outcome s (ok m) n h = cc h
    outcome s (err x) n h = n (cc h)

pub ruleset defined_base = (
  Defined-pure, Defined-lift, Defined-if, Defined-bind, Defined-get_register, Defined-set_register,
  Defined-get_flag, Defined-set_flag, Defined-get_memory, Defined-set_memory,
)

pub check_condition-Defined : (cond : Condition) → Defined (check_condition cond)
unfolding check_condition
check_condition-Defined cond = search defined_base

pub ext_reg_offset-Defined : (ext_word : ℕ) → Defined (ext_reg_offset ext_word)
unfolding ext_reg_offset
ext_reg_offset-Defined ext_word = search defined_base

pub stack_pop-Defined : (size : DataSize) → Defined (stack_pop size)
unfolding stack_pop
stack_pop-Defined size = search defined_base

pub stack_push-Defined : (size : DataSize) (value : ℕ) → Defined (stack_push size value)
unfolding stack_push
stack_push-Defined size value = search defined_base

ruleset defined_index = (defined_base, ext_reg_offset-Defined)

-- The mode whose control address adds two signed offsets.
abbrev pub is_indexed : AddressingMode → Bool
is_indexed indirect_index = true
is_indexed _ = false

pub get_control_address-Defined :
    (mode : AddressingMode) (reg : RegisterType) (size : DataSize)
    → is_indexed mode ≡ false
    → Defined (get_control_address mode reg size)
unfolding get_control_address
get_control_address-Defined direct_addr reg size h = search defined_index
get_control_address-Defined indirect_index reg size h = absurd (cc h)
get_control_address-Defined _ reg size h = search defined_index depth 9

pub get_data-Defined :
    (mode : AddressingMode) (reg : RegisterType) (size : DataSize)
    → Defined (get_data mode reg size)
unfolding get_data
get_data-Defined direct_addr reg size = search defined_index
get_data-Defined _ reg size = search defined_index depth 9

pub get_data_silent-Defined :
    (mode : AddressingMode) (reg : RegisterType) (size : DataSize)
    → Defined (get_data_silent mode reg size)
unfolding get_data_silent
get_data_silent-Defined direct_addr reg size = search defined_index
get_data_silent-Defined _ reg size = search defined_index depth 9

pub set_data-Defined :
    (mode : AddressingMode) (reg : RegisterType) (size : DataSize) (value : ℕ)
    → Defined (set_data mode reg size value)
unfolding set_data
set_data-Defined direct_addr reg size value = search defined_index
set_data-Defined _ reg size value = search defined_index depth 9

pub ruleset defined_rules = (
  defined_base, check_condition-Defined, stack_pop-Defined, stack_push-Defined,
  get_control_address-Defined, get_data-Defined, get_data_silent-Defined, set_data-Defined,
)
