-- ===== src/Disassembler/Names.antt =====
-- The names of registers and conditions tell them apart: each is read back from its text.
use m68k_emu.Base.{
  ℕ, zero, suc, ◌+◌, ◌-◌, inl, inr, ◌≡◌, ◌<◌, ◌⊎◌, ◌==◌, ◌&&◌, Bool, true, false, if◌then◌else◌,
  Option, none, some, [], ◌∷◌, arith, refl,
}
use m68k_emu.Base.Text.{Text, codes}
use m68k_emu.Defines.{
  RegisterType, reg_pc, reg_sr, Condition, cond_true, cond_false, higher, lower_same, carry_clear,
  carry_set, not_equal, equal, overflow_clear, overflow_set, plus, minus, greater_equal, less_than,
  greater_than, less_equal,
}
use m68k_emu.Disassembler.{reg, condition_suffix}

-- Whether two texts are the same bytes.
abbrev same : Text → Text → Bool
same [] [] = true
same [] (d ∷ t) = false
same (c ∷ s) [] = false
same (c ∷ s) (d ∷ t) = c == d && same s t

-- The register of a name of two letters.
pub read_reg : Text → Option RegisterType
read_reg (c ∷ d ∷ []) =
    if c == b'd'
    then some (d - b'0')
    else if c == b'a'
    then some (d - b'0' + 8)
    else if c == b'p'
    then some reg_pc
    else some reg_sr
read_reg _ = none

-- A test of every number below a bound.
every : ℕ → (ℕ → Bool) → Bool
every zero p = true
every (suc n) p = p n && every n p

every_lem : (n : ℕ) (p : ℕ → Bool) (i : ℕ) → every n p ≡ true → i < n → p i ≡ true
unfolding every
every_lem zero p i h lt = absurd (omega arith)
every_lem (suc n) p i h lt = ground (arith, every_lem n p i)

abbrev is_some : Option RegisterType → RegisterType → Bool
is_some none r = false
is_some (some q) r = q == r

named : RegisterType → Bool
unfolding reg read_reg
named r = is_some (read_reg (reg r)) r

is_some_lem : (o : Option RegisterType) (r : RegisterType) → is_some o r ≡ true → o ≡ some r
is_some_lem none r h = cc
is_some_lem (some q) r h = ground arith

named_lem : (r : RegisterType) → named r ≡ true → read_reg (reg r) ≡ some r
unfolding named
named_lem r h = is_some_lem (read_reg (reg r)) r h

all_named : every 16 named ≡ true
unfolding every named
all_named = refl

named_pc : read_reg (reg reg_pc) ≡ some reg_pc
unfolding reg read_reg
named_pc = refl

named_sr : read_reg (reg reg_sr) ≡ some reg_sr
unfolding reg read_reg
named_sr = refl

-- The name of a data or an address register, of PC or of the status register is read back.
pub read_reg-reg :
    (r : RegisterType) → (r < 16) ⊎ ((r ≡ reg_pc) ⊎ (r ≡ reg_sr)) → read_reg (reg r) ≡ some r
read_reg-reg r (inl h) = named_lem r (every_lem 16 named r all_named h)
read_reg-reg r (inr (inl e)) = rw e named_pc
read_reg-reg r (inr (inr e)) = rw e named_sr

pub read_condition : Text → Option Condition
read_condition s =
    if same s (codes "t")
    then some cond_true
    else if same s (codes "f")
    then some cond_false
    else if same s (codes "hi")
    then some higher
    else if same s (codes "ls")
    then some lower_same
    else if same s (codes "cc")
    then some carry_clear
    else if same s (codes "cs")
    then some carry_set
    else if same s (codes "ne")
    then some not_equal
    else if same s (codes "eq")
    then some equal
    else if same s (codes "vc")
    then some overflow_clear
    else if same s (codes "vs")
    then some overflow_set
    else if same s (codes "pl")
    then some plus
    else if same s (codes "mi")
    then some minus
    else if same s (codes "ge")
    then some greater_equal
    else if same s (codes "lt")
    then some less_than
    else if same s (codes "gt")
    then some greater_than
    else if same s (codes "le")
    then some less_equal
    else none

-- Each of the sixteen conditions is read back from its suffix, so no two have the same.
pub read_condition-condition_suffix : (c : Condition) → read_condition (condition_suffix c) ≡ some c
unfolding condition_suffix read_condition
read_condition-condition_suffix cond_true = refl
read_condition-condition_suffix _ = refl
