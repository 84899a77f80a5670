-- ===== src/Instruction/FlagLaws.antt =====
-- What the groups of flag updates leave in the state.
use m68k_emu.Base.{==_ne, ℕ, ◌≡◌, ◌≢◌, ◌∙◌, arith, refl, Bool, ◌==◌, if◌then◌else◌}
use m68k_emu.Defines.{
  DataSize, StatusRegisterFlag, flag_carry, flag_overflow, flag_zero, flag_negative, flag_extend,
  flag_supervisor, reg_sr, place,
}
use m68k_emu.Registers
use m68k_emu.Registers.{Registers}
use m68k_emu.Registers.Access
use m68k_emu.Registers.Access.{IsValid}
use m68k_emu.Registers.Flags

-- The register array with N, Z, V and C set in this order.
abbrev pub with_nzvc : Registers → (n z v c : Bool) → Registers
with_nzvc r n z v c =
    Registers.set_flag
      (Registers.set_flag (Registers.set_flag (Registers.set_flag r flag_negative n) flag_zero z)
        flag_overflow v)
      flag_carry c

-- What a read of each flag gives.
pub record HasFlags (r : Registers) (n z v c : Bool) : Type 0 where
  pub negative : Registers.get_flag r flag_negative ≡ n
  pub zero : Registers.get_flag r flag_zero ≡ z
  pub overflow : Registers.get_flag r flag_overflow ≡ v
  pub carry : Registers.get_flag r flag_carry ≡ c

after_set :
    (r : Registers) (f g : StatusRegisterFlag) (value : Bool)
    → IsValid r
    → Registers.get_flag (Registers.set_flag r f value) g
      ≡ (if place f == place g then value else Registers.get_flag r g)
after_set r f g value v = Flags.get_flag-set_flag r f g value (omega (arith, v.status))

module _ (r : Registers) (n z v c : Bool) (valid : IsValid r) where
  v1 : IsValid (Registers.set_flag r flag_negative n)
  v1 = Flags.set_flag-IsValid r flag_negative n valid

  v2 : IsValid (Registers.set_flag (Registers.set_flag r flag_negative n) flag_zero z)
  v2 = Flags.set_flag-IsValid _ flag_zero z v1

  v3 : IsValid (
      Registers.set_flag
        (Registers.set_flag (Registers.set_flag r flag_negative n) flag_zero z)
        flag_overflow
        v)
  v3 = Flags.set_flag-IsValid _ flag_overflow v v2

  pub with_nzvc-HasFlags : HasFlags (with_nzvc r n z v c) n z v c
  with_nzvc-HasFlags = record {
    negative =
        after_set _ flag_carry flag_negative c v3
        ∙ after_set _ flag_overflow flag_negative v v2
        ∙ after_set _ flag_zero flag_negative z v1
        ∙ after_set r flag_negative flag_negative n valid;
    zero =
        after_set _ flag_carry flag_zero c v3
        ∙ after_set _ flag_overflow flag_zero v v2
        ∙ after_set _ flag_zero flag_zero z v1;
    overflow =
        after_set _ flag_carry flag_overflow c v3 ∙ after_set _ flag_overflow flag_overflow v v2;
    carry = after_set _ flag_carry flag_carry c v3;
  }

  pub with_nzvc-extend :
      Registers.get_flag (with_nzvc r n z v c) flag_extend ≡ Registers.get_flag r flag_extend
  with_nzvc-extend =
      after_set _ flag_carry flag_extend c v3
      ∙ after_set _ flag_overflow flag_extend v v2
      ∙ after_set _ flag_zero flag_extend z v1
      ∙ after_set r flag_negative flag_extend n valid

  pub with_nzvc-supervisor :
      Registers.get_flag (with_nzvc r n z v c) flag_supervisor
      ≡ Registers.get_flag r flag_supervisor
  with_nzvc-supervisor =
      after_set _ flag_carry flag_supervisor c v3
      ∙ after_set _ flag_overflow flag_supervisor v v2
      ∙ after_set _ flag_zero flag_supervisor z v1
      ∙ after_set r flag_negative flag_supervisor n valid

physical-set_flag :
    (r : Registers) (f : StatusRegisterFlag) (value : Bool) (j : ℕ)
    → IsValid r
    → place f ≢ 13
    → Registers.physical (Registers.set_flag r f value) j ≡ Registers.physical r j
unfolding Registers.physical
physical-set_flag r f value j v np =
    rw (after_set r f flag_supervisor value v, ==_ne (place f) 13 np) refl

-- Setting a flag other than the supervisor bit leaves every other register as it was.
pub set_flag-get :
    (r : Registers) (f : StatusRegisterFlag) (value : Bool) (j : ℕ) (size : DataSize)
    → IsValid r
    → j ≢ reg_sr
    → place f ≢ 13
    → Registers.get (Registers.set_flag r f value) j size ≡ Registers.get r j size
unfolding Registers.get
set_flag-get r f value j size v ne np =
    rw
      (
        physical-set_flag r f value j v np,
        Flags.reg_buffer-set_flag r f value (Registers.physical r j) (Access.physical-ne-sr r j ne),
      )
      refl

-- So do all four.
pub with_nzvc-get :
    (r : Registers) (n z v c : Bool) (j : ℕ) (size : DataSize)
    → IsValid r
    → j ≢ reg_sr
    → Registers.get (with_nzvc r n z v c) j size ≡ Registers.get r j size
with_nzvc-get r n z v c j size valid ne =
    set_flag-get _ flag_carry c j size (v3 r n z v c valid) ne (omega arith)
    ∙ set_flag-get _ flag_overflow v j size (v2 r n z v c valid) ne (omega arith)
    ∙ set_flag-get _ flag_zero z j size (v1 r n z v c valid) ne (omega arith)
    ∙ set_flag-get r flag_negative n j size valid ne (omega arith)
