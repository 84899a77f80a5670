-- ===== src/Base/Text.antt =====
-- Text as the list of its bytes, and unsigned numbers in base 16 as `std::hex` prints them.
use Prim.Native.Nat.{ℕ, zero, suc, ◌+◌, ◌-◌, ◌*◌, ◌/◌, ◌%◌, ◌^◌, ◌<◌}
use Prim.Native.Char.{code}
use Prim.Native.String.{String}
use mathlib.Core.Path.{◌≡◌}
use mathlib.Core.List.{List, [], ◌∷◌}
use native.Mathlib.Nat.{pow-suc}
use native.Mathlib.Omega.{arith}
use m68k_emu.Base.Tests.{ltb, ◌==◌, if◌then◌else◌}

abbrev pub Text : Type 0
Text = List ℕ

-- The bytes of a literal, which is ASCII wherever the code has one.
abbrev pub codes : String → Text
codes String.[] = []
codes (String.◌∷◌ c s) = code c ∷ codes s

abbrev pub hex_digit : ℕ → ℕ
hex_digit d = if ltb d 10 then b'0' + d else b'a' + (d - 10)

-- The digits of `n` before `out`; `places` of them at most.
unfoldable pub hex_digits : ℕ → ℕ → Text → Text
hex_digits zero n out = out
hex_digits (suc places) n out =
    let rest = hex_digits places (n / 16) (hex_digit (n % 16) ∷ out) in if n == 0 then out else rest

-- `<< std::hex <<` of a number below 2 ^ 32, which has eight digits at most.
unfoldable pub hex : ℕ → Text
hex n = if n == 0 then b'0' ∷ [] else hex_digits 8 n []

-- A digit in upper case, and a number with zeros in front, as `%0*X` prints it in `places` digits.
abbrev pub upper_hex_digit : ℕ → ℕ
upper_hex_digit d = if ltb d 10 then b'0' + d else b'A' + (d - 10)

unfoldable pub padded_hex : ℕ → ℕ → Text → Text
padded_hex zero n out = out
padded_hex (suc places) n out = padded_hex places (n / 16) (upper_hex_digit (n % 16) ∷ out)

-- Reading back: the number that digits spell behind `n`.
abbrev pub digit_value : ℕ → ℕ
digit_value c = if ltb c b'a' then c - b'0' else c - b'a' + 10

unfoldable pub read_hex : Text → ℕ → ℕ
read_hex [] n = n
read_hex (c ∷ s) n = read_hex s (n * 16 + digit_value c)

digit_value-hex_digit : (d : ℕ) → d < 16 → digit_value (hex_digit d) ≡ d
digit_value-hex_digit d h = ground arith

read_hex-hex_digits :
    (places n : ℕ) (out : Text)
    → n < 16 ^ places
    → read_hex (hex_digits places n out) 0 ≡ read_hex out n
unfolding read_hex hex_digits
read_hex-hex_digits zero n out h = ground arith
read_hex-hex_digits (suc places) n out h = ground (
  arith,
  pow-suc 16 places,
  digit_value-hex_digit (n % 16) (omega arith),
  read_hex-hex_digits places (n / 16) (hex_digit (n % 16) ∷ out) (omega (arith, pow-suc 16 places)),
)

-- Every number of 32 digits is read back from its print in base 16.
pub read_hex-hex : (n : ℕ) → n < 2 ^ 32 → read_hex (hex n) 0 ≡ n
unfolding hex read_hex
read_hex-hex n h = ground (arith, read_hex-hex_digits 8 n [] h)
