-- ===== src/CpuState/Keeps.antt =====
-- Invariants of actions: one rule for each way to build an action of src/cpu_state.cpp, for any
-- predicate on the state.
use m68k_emu.Base.{ℕ, Bool, true, false, if◌then◌else◌}
use m68k_emu.Defines.{DataSize, RegisterType, StatusRegisterFlag, Error, Result, ok, err, Condition}
use m68k_emu.CpuState.{
  CpuState, Action, pure, throw, lift, get_register, get_flag, get_memory, continue, ◌>>=◌,
  check_condition,
}

-- Whether `m` returns or throws, it keeps `P`.
pub record Keeps {A : Type 0} (P : CpuState → Type 0) (m : Action A) : Type 0 where
  pub at : (s : CpuState) → P s → P (m s).1

module _ {A : Type 0} {P : CpuState → Type 0} where
  pub Keeps-pure : (a : A) → Keeps P (pure a)
  unfolding pure
  Keeps-pure a = record { at = λ s h. h }

  pub Keeps-throw : (e : Error) → Keeps P (throw {A = A} e)
  unfolding throw
  Keeps-throw e = record { at = λ s h. h }

  pub Keeps-lift : (r : Result A) → Keeps P (lift r)
  unfolding lift
  Keeps-lift r = record { at = λ s h. h }

  pub Keeps-if : (b : Bool) (m k : Action A) → Keeps P m → Keeps P k → Keeps P (if b then m else k)
  Keeps-if true m k hm hk = hm
  Keeps-if false m k hm hk = hk

module _ {A B : Type 0} {P : CpuState → Type 0} where
  pub Keeps-bind :
      (m : Action A) (f : A → Action B) → Keeps P m → ((a : A) → Keeps P (f a)) → Keeps P (m >>= f)
  unfolding ◌>>=◌
  Keeps-bind m f km kf = record { at = λ s h. passed (m s).0 (m s).1 (km.at s h) }
    where
      passed : (r : Result A) (s' : CpuState) → P s' → P (continue r f s').1
      passed (ok a) s' h = (kf a).at s' h
      passed (err e) s' h = h

module _ {P : CpuState → Type 0} where
  pub Keeps-get_register : (reg : RegisterType) (size : DataSize) → Keeps P (get_register reg size)
  unfolding get_register
  Keeps-get_register reg size = record { at = λ s h. h }

  pub Keeps-get_flag : (flag : StatusRegisterFlag) → Keeps P (get_flag flag)
  unfolding get_flag
  Keeps-get_flag flag = record { at = λ s h. h }

  pub Keeps-get_memory : (address : ℕ) (size : DataSize) → Keeps P (get_memory address size)
  unfolding get_memory
  Keeps-get_memory address size = record { at = λ s h. h }

  pub Keeps-check_condition : (cond : Condition) → Keeps P (check_condition cond)
  unfolding check_condition
  Keeps-check_condition cond = search (Keeps-bind, Keeps-pure, Keeps-get_flag)

pub ruleset keeps_rules = (
  Keeps-pure, Keeps-throw, Keeps-lift, Keeps-if, Keeps-bind, Keeps-get_register, Keeps-get_flag,
  Keeps-get_memory, Keeps-check_condition,
)
