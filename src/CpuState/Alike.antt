-- ===== src/CpuState/Alike.antt =====
-- States that differ at most in what a memory holds behind its size: no operation of
-- src/cpu_state.cpp tells them apart.
use m68k_emu.Base.{ℕ, ◌≡◌, ◌∙◌, sym, ap, refl, Bool, true, false, if◌then◌else◌}
use m68k_emu.Defines.{
  DataSize, RegisterType, StatusRegisterFlag, Error, Result, ok, err, AddressingMode, direct_addr,
  Condition,
}
use m68k_emu.Registers
use m68k_emu.Memory
use m68k_emu.Memory.{BaseMemory}
use m68k_emu.Memory.Bytes.{IsBytes}
use m68k_emu.Memory.Cells.{cells, cell_store}
use m68k_emu.Memory.Interface.{mapped, left_by}
use m68k_emu.Memory.Refinement.{memory_refines}
use m68k_emu.CpuState.{
  CpuState, Action, pure, throw, lift, continue, get_register, set_register, get_flag, set_flag,
  get_memory, set_memory, replaced, stack_pop, stack_push, check_condition, ◌>>=◌,
}
use m68k_emu.CpuState.Operands.{ext_reg_offset, get_control_address, get_data}
use m68k_emu.CpuState.Silent.{get_data_silent}
use m68k_emu.CpuState.Store.{set_data}

-- Memories of bytes with the same cells.
pub record SameCells (m k : BaseMemory) : Type 0 where
  pub cells : cells m ≡ cells k
  pub left : IsBytes m.base_addr
  pub right : IsBytes k.base_addr

-- The same registers, and memories with the same cells.
pub record Alike (s t : CpuState) : Type 0 where
  pub registers : s.registers ≡ t.registers
  pub memory : SameCells s.memory t.memory

-- From alike states, the same result and alike states.
pub record Blind {A : Type 0} (m : Action A) : Type 0 where
  pub at : (s t : CpuState) → Alike s t → ((m s).0 ≡ (m t).0) × Alike (m s).1 (m t).1

module _ {A : Type 0} where
  pub Blind-pure : (a : A) → Blind (pure a)
  unfolding pure
  Blind-pure a = record { at = λ s t h. (refl, h) }

  pub Blind-throw : (e : Error) → Blind {A = A} (throw e)
  unfolding throw
  Blind-throw e = record { at = λ s t h. (refl, h) }

  pub Blind-lift : (r : Result A) → Blind (lift r)
  unfolding lift
  Blind-lift r = record { at = λ s t h. (refl, h) }

  pub Blind-if : (b : Bool) (m k : Action A) → Blind m → Blind k → Blind (if b then m else k)
  Blind-if true m k hm hk = hm
  Blind-if false m k hm hk = hk

pub Blind-bind :
    {A B : Type 0} (m : Action A) (f : A → Action B)
    → Blind m
    → ((a : A) → Blind (f a))
    → Blind (m >>= f)
unfolding ◌>>=◌
Blind-bind {A} {B} m f hm hf = record {
  at = λ s t h. next (m s).0 (m t).0 (m s).1 (m t).1 (hm.at s t h).0 (hm.at s t h).1;
}
  where
    next :
        (r r' : Result A) (s t : CpuState)
        → r ≡ r'
        → Alike s t
        → ((continue r f s).0 ≡ (continue r' f t).0) × Alike (continue r f s).1 (continue r' f t).1
    next (ok a) (ok b) s t e h = let same : a ≡ b = cc e in rw (← same) ((hf a).at s t h)
    next (ok a) (err x) s t e h = absurd (cc e)
    next (err x) (ok b) s t e h = absurd (cc e)
    next (err x) (err y) s t e h = (cc e, h)

pub Blind-get_register : (reg : RegisterType) (size : DataSize) → Blind (get_register reg size)
unfolding get_register
Blind-get_register reg size = record {
  at = λ s t h. (ap (λ r. ok (Registers.get r reg size)) h.registers, h);
}

pub Blind-set_register :
    (reg : RegisterType) (size : DataSize) (value : ℕ) → Blind (set_register reg size value)
unfolding set_register
Blind-set_register reg size value = record {
  at = λ s t h. (
    refl,
    record { registers = ap (λ r. Registers.set r reg size value) h.registers; memory = h.memory },
  );
}

pub Blind-get_flag : (flag : StatusRegisterFlag) → Blind (get_flag flag)
unfolding get_flag
Blind-get_flag flag = record {
  at = λ s t h. (ap (λ r. ok (Registers.get_flag r flag)) h.registers, h);
}

pub Blind-set_flag : (flag : StatusRegisterFlag) (value : Bool) → Blind (set_flag flag value)
unfolding set_flag
Blind-set_flag flag value = record {
  at = λ s t h. (
    refl,
    record { registers = ap (λ r. Registers.set_flag r flag value) h.registers; memory = h.memory },
  );
}

module _ (m k : BaseMemory) (h : SameCells m k) (address : ℕ) (size : DataSize) where
  get-SameCells : Memory.get m address size ≡ Memory.get k address size
  get-SameCells =
      (memory_refines m address size 0 h.left).0
      ∙ ap (λ c. cell_store.get c address size) h.cells
      ∙ sym (memory_refines k address size 0 h.right).0

  set-SameCells :
      (value : ℕ)
      → mapped cells (Memory.set m address size value)
        ≡ mapped cells (Memory.set k address size value)
  set-SameCells value =
      (memory_refines m address size value h.left).1
      ∙ ap (λ c. cell_store.set c address size value) h.cells
      ∙ sym (memory_refines k address size value h.right).1

pub Blind-get_memory : (address : ℕ) (size : DataSize) → Blind (get_memory address size)
unfolding get_memory
Blind-get_memory address size = record {
  at = λ s t h. (get-SameCells s.memory t.memory h.memory address size, h);
}

pub Blind-set_memory :
    (address : ℕ) (size : DataSize) (value : ℕ) → Blind (set_memory address size value)
unfolding set_memory
Blind-set_memory address size value = record {
  at = λ s t h.
      outcome s t (Memory.set s.memory address size value) (Memory.set t.memory address size value)
        h (set-SameCells s.memory t.memory h.memory address size value)
        (memory_refines s.memory address size value h.memory.left).2
        (memory_refines t.memory address size value h.memory.right).2;
}
  where
    outcome :
        (s t : CpuState) (r r' : Result BaseMemory)
        → Alike s t
        → mapped cells r ≡ mapped cells r'
        → IsBytes (left_by s.memory r).base_addr
        → IsBytes (left_by t.memory r').base_addr
        → ((replaced r s).0 ≡ (replaced r' t).0) × Alike (replaced r s).1 (replaced r' t).1
    outcome s t (ok m) (ok k) h e l r = (
      refl,
      record { registers = h.registers; memory = record { cells = cc e; left = l; right = r } },
    )
    outcome s t (ok m) (err y) h e l r = absurd (cc e)
    outcome s t (err x) (ok k) h e l r = absurd (cc e)
    outcome s t (err x) (err y) h e l r = (cc e, h)

pub ruleset blind_base = (
  Blind-pure, Blind-throw, Blind-lift, Blind-if, Blind-bind, Blind-get_register, Blind-set_register,
  Blind-get_flag, Blind-set_flag, Blind-get_memory, Blind-set_memory,
)

pub check_condition-Blind : (cond : Condition) → Blind (check_condition cond)
unfolding check_condition
check_condition-Blind cond = search blind_base

ext_reg_offset-Blind : (ext_word : ℕ) → Blind (ext_reg_offset ext_word)
unfolding ext_reg_offset
ext_reg_offset-Blind ext_word = search blind_base

pub stack_pop-Blind : (size : DataSize) → Blind (stack_pop size)
unfolding stack_pop
stack_pop-Blind size = search blind_base

pub stack_push-Blind : (size : DataSize) (value : ℕ) → Blind (stack_push size value)
unfolding stack_push
stack_push-Blind size value = search blind_base

ruleset blind_index = (blind_base, ext_reg_offset-Blind)

pub get_control_address-Blind :
    (mode : AddressingMode) (reg : RegisterType) (size : DataSize)
    → Blind (get_control_address mode reg size)
unfolding get_control_address
get_control_address-Blind direct_addr reg size = search blind_index
get_control_address-Blind _ reg size = search blind_index depth 9

pub get_data-Blind :
    (mode : AddressingMode) (reg : RegisterType) (size : DataSize) → Blind (get_data mode reg size)
unfolding get_data
get_data-Blind direct_addr reg size = search blind_index
get_data-Blind _ reg size = search blind_index depth 9

pub get_data_silent-Blind :
    (mode : AddressingMode) (reg : RegisterType) (size : DataSize)
    → Blind (get_data_silent mode reg size)
unfolding get_data_silent
get_data_silent-Blind direct_addr reg size = search blind_index
get_data_silent-Blind _ reg size = search blind_index depth 9

pub set_data-Blind :
    (mode : AddressingMode) (reg : RegisterType) (size : DataSize) (value : ℕ)
    → Blind (set_data mode reg size value)
unfolding set_data
set_data-Blind direct_addr reg size value = search blind_index
set_data-Blind _ reg size value = search blind_index depth 9

pub ruleset blind_rules = (
  blind_base, check_condition-Blind, stack_pop-Blind, stack_push-Blind, get_control_address-Blind,
  get_data-Blind, get_data_silent-Blind, set_data-Blind,
)
