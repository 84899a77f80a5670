-- ===== src/CpuState/Atomic.antt =====
-- What a throw leaves in the memory. An action is `Atomic` if it throws with the memory as it was,
-- and `Safe` if it never throws.
use m68k_emu.Base.{ℕ, ◌≡◌, ◌≢◌, ◌∙◌, Bool, true, false, if◌then◌else◌, refl}
use m68k_emu.Defines.{
  DataSize, RegisterType, StatusRegisterFlag, Error, Result, ok, err, AddressingMode, direct_addr,
}
use m68k_emu.Memory
use m68k_emu.Memory.{BaseMemory}
use m68k_emu.CpuState.{
  CpuState, Action, pure, continue, get_register, set_register, set_flag, set_memory, replaced,
  stack_push, ◌>>=◌,
}
use m68k_emu.CpuState.Keeps.{Keeps}
use m68k_emu.CpuState.Frame.{Holds, holds_rules, ext_reg_offset-Holds}
use m68k_emu.CpuState.Store.{set_data}

pub record Safe {A : Type 0} (m : Action A) : Type 0 where
  pub at : (s : CpuState) (e : Error) → (m s).0 ≢ err e

pub record Atomic {A : Type 0} (m : Action A) : Type 0 where
  pub at : (s : CpuState) (e : Error) → (m s).0 ≡ err e → (m s).1.memory ≡ s.memory

module _ {A : Type 0} where
  pub Safe-pure : (a : A) → Safe (pure a)
  unfolding pure
  Safe-pure a = record { at = λ s e h. cc h }

  pub Safe-if : (b : Bool) (m k : Action A) → Safe m → Safe k → Safe (if b then m else k)
  Safe-if true m k hm hk = hm
  Safe-if false m k hm hk = hk

  -- What keeps the memory keeps it when it throws.
  pub Atomic-Holds : (m : Action A) → ((k : BaseMemory) → Keeps (Holds k) m) → Atomic m
  Atomic-Holds m h = record { at = λ s e _. ((h s.memory).at s (record { same = refl })).same }

  pub Atomic-if : (b : Bool) (m k : Action A) → Atomic m → Atomic k → Atomic (if b then m else k)
  Atomic-if true m k hm hk = hm
  Atomic-if false m k hm hk = hk

module _ {A B : Type 0} (m : Action A) (f : A → Action B) where
  pub Safe-bind : Safe m → ((a : A) → Safe (f a)) → Safe (m >>= f)
  unfolding ◌>>=◌
  Safe-bind hm hf = record { at = λ s e h. next (m s).0 (m s).1 e (hm.at s) h }
    where
      next :
          (r : Result A) (s' : CpuState) (e : Error)
          → ((e : Error) → r ≢ err e)
          → (continue r f s').0 ≢ err e
      next (ok a) s' e n = (hf a).at s' e
      next (err x) s' e n = absurd (n x refl)

  -- Nothing is stored before the last part.
  pub Atomic-bind :
      ((k : BaseMemory) → Keeps (Holds k) m) → ((a : A) → Atomic (f a)) → Atomic (m >>= f)
  unfolding ◌>>=◌
  Atomic-bind hm hf = record {
    at = λ s e h. next (m s).0 (m s).1 e h ∙ ((hm s.memory).at s (record { same = refl })).same;
  }
    where
      next :
          (r : Result A) (s' : CpuState) (e : Error)
          → (continue r f s').0 ≡ err e
          → (continue r f s').1.memory ≡ s'.memory
      next (ok a) s' e h = (hf a).at s' e h
      next (err x) s' e h = refl

  -- What stores is not followed by what throws.
  pub Atomic-bind_Safe : Atomic m → ((a : A) → Safe (f a)) → Atomic (m >>= f)
  unfolding ◌>>=◌
  Atomic-bind_Safe hm hf = record { at = λ s e h. next (m s).0 (m s).1 s.memory e (hm.at s) h }
    where
      next :
          (r : Result A) (s' : CpuState) (k : BaseMemory) (e : Error)
          → ((x : Error) → r ≡ err x → s'.memory ≡ k)
          → (continue r f s').0 ≡ err e
          → (continue r f s').1.memory ≡ k
      next (ok a) s' k e n h = absurd ((hf a).at s' e h)
      next (err x) s' k e n h = n x refl

pub Safe-set_register :
    (reg : RegisterType) (size : DataSize) (value : ℕ) → Safe (set_register reg size value)
unfolding set_register
Safe-set_register reg size value = record { at = λ s e h. cc h }

pub Safe-get_register : (reg : RegisterType) (size : DataSize) → Safe (get_register reg size)
unfolding get_register
Safe-get_register reg size = record { at = λ s e h. cc h }

pub Safe-set_flag : (flag : StatusRegisterFlag) (value : Bool) → Safe (set_flag flag value)
unfolding set_flag
Safe-set_flag flag value = record { at = λ s e h. cc h }

pub ruleset safe_rules =
    (Safe-pure, Safe-if, Safe-bind, Safe-set_register, Safe-get_register, Safe-set_flag)

pub Atomic-set_memory :
    (address : ℕ) (size : DataSize) (value : ℕ) → Atomic (set_memory address size value)
unfolding set_memory
Atomic-set_memory address size value = record {
  at = λ s e h. outcome s (Memory.set s.memory address size value) e h;
}
  where
    outcome :
        (s : CpuState) (r : Result BaseMemory) (e : Error)
        → (replaced r s).0 ≡ err e
        → (replaced r s).1.memory ≡ s.memory
    outcome s (ok m) e h = absurd (cc h)
    outcome s (err x) e h = refl

pub ruleset atomic_base = (
  Atomic-if, Atomic-bind, Atomic-bind_Safe, Atomic-set_memory, safe_rules, holds_rules,
  ext_reg_offset-Holds,
)

pub Atomic-stack_push : (size : DataSize) (value : ℕ) → Atomic (stack_push size value)
unfolding stack_push
Atomic-stack_push size value = search atomic_base

pub Atomic-set_data :
    (mode : AddressingMode) (reg : RegisterType) (size : DataSize) (value : ℕ)
    → Atomic (set_data mode reg size value)
unfolding set_data
Atomic-set_data direct_addr reg size value = Atomic-Holds _ (λ k. search holds_rules)
Atomic-set_data mode reg size value = search (atomic_base, Atomic-Holds) depth 12

pub ruleset atomic_rules = (atomic_base, Atomic-stack_push, Atomic-set_data, Atomic-Holds)
