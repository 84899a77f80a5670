-- ===== src/CpuState/Conditions.antt =====
-- `checkCondition` of src/cpu_state.cpp: the conditions pair off into opposites, and after a
-- comparison they are the orders of the compared words.
use m68k_emu.Base.{◌≡◌, refl, ap, arith, Bool, not}
use m68k_emu.Defines.{
  StatusRegisterFlag, flag_carry, flag_zero, flag_negative, flag_overflow, ok, Condition, cond_true,
  cond_false, higher, lower_same, carry_clear, carry_set, not_equal, equal, overflow_clear,
  overflow_set, plus, minus, greater_equal, less_than, greater_than, less_equal,
}
use m68k_emu.Registers
use m68k_emu.CpuState.{CpuState, holds, check_condition, ◌>>=◌}

-- The condition whose number differs in the lowest digit.
abbrev pub opposite : Condition → Condition
opposite cond_true = cond_false
opposite cond_false = cond_true
opposite higher = lower_same
opposite lower_same = higher
opposite carry_clear = carry_set
opposite carry_set = carry_clear
opposite not_equal = equal
opposite equal = not_equal
opposite overflow_clear = overflow_set
opposite overflow_set = overflow_clear
opposite plus = minus
opposite minus = plus
opposite greater_equal = less_than
opposite less_than = greater_equal
opposite greater_than = less_equal
opposite less_equal = greater_than

holds-opposite :
    (c : Condition) (n z v x : Bool) → holds (opposite c) n z v x ≡ not (holds c n z v x)
holds-opposite cond_true n z v x = refl
holds-opposite _ n z v x = ground arith

abbrev pub flag : CpuState → StatusRegisterFlag → Bool
flag s f = Registers.get_flag s.registers f

pub check_condition_lem :
    (c : Condition) (s : CpuState)
    → check_condition c s ≡ (
      ok (
          holds c
            (flag s flag_negative)
            (flag s flag_zero)
            (flag s flag_overflow)
            (flag s flag_carry)),
      s,
    )
unfolding check_condition ◌>>=◌
check_condition_lem c s = refl

-- In every state, a condition holds exactly when its opposite does not, and testing it changes
-- nothing.
check_condition-opposite :
    (c : Condition) (s : CpuState)
    → (b : Bool) × (check_condition c s ≡ (ok b, s))
      × (check_condition (opposite c) s ≡ (ok (not b), s))
check_condition-opposite c s = (
  holds c (flag s flag_negative) (flag s flag_zero) (flag s flag_overflow) (flag s flag_carry),
  check_condition_lem c s,
  rw (check_condition_lem (opposite c) s) (
      ap (λ b. (ok b, s))
        (holds-opposite c (flag s flag_negative) (flag s flag_zero) (flag s flag_overflow)
          (flag s flag_carry))),
)
