-- ===== src/Registers/ReadBack.antt =====
-- What a register holds after a write, and what the others hold.
use m68k_emu.Base.{ℕ, ◌*◌, ◌/◌, ◌≡◌, ◌≢◌, ◌+◌, ◌%◌, arith, ap, ◌==◌, if◌then◌else◌}
use m68k_emu.Defines.{DataSize, byte, word, long, RegisterType, reg_sr, reg_a7}
use m68k_emu.Helpers.Flags.{range}
use m68k_emu.Registers.{Registers, get, set, physical}
use m68k_emu.Registers.Access.{IsValid, get-set, get_narrow, set-IsValid}

-- A write leaves a register alone that reaches another entry.
pub set-apart :
    (r : Registers) (i k : RegisterType) (size : DataSize) (x : ℕ)
    → IsValid r
    → i ≢ reg_sr
    → physical r i ≢ physical r k
    → get (set r i size x) k long ≡ get r k long
set-apart r i k size x v ns ne = ground (arith, get-set r i k size x v ns)

-- A write leaves the other data registers and PC alone.
pub set-other :
    (r : Registers) (i k : RegisterType) (size : DataSize) (x : ℕ)
    → IsValid r
    → i ≢ reg_sr
    → i ≢ k
    → i ≢ reg_a7
    → k ≢ reg_a7
    → get (set r i size x) k long ≡ get r k long
unfolding physical
set-other r i k size x v ns ne na ka = ground (arith, get-set r i k size x v ns)

pub set-same :
    (r : Registers) (i : RegisterType) (size : DataSize) (x : ℕ)
    → IsValid r
    → i ≢ reg_sr
    → get (set r i size x) i size ≡ x % range size
set-same r i size x v ns =
    rw (get_narrow (set r i size x) i size (set-IsValid r i size x v), get-set r i i size x v ns)
      (joined size)
  where
    joined :
        (size : DataSize)
        → (if physical r i == physical r i
              then get r i long / range size * range size + x % range size
              else get r i long)
            % range size
          ≡ x % range size
    joined byte = ground arith
    joined word = ground arith
    joined long = ground arith

pub same_narrow :
    (r r' : Registers) (k : RegisterType) (size : DataSize)
    → IsValid r
    → IsValid r'
    → get r' k long ≡ get r k long
    → get r' k size ≡ get r k size
same_narrow r r' k size v v' e =
    rw (get_narrow r k size v, get_narrow r' k size v') (ap (λ x. x % range size) e)
