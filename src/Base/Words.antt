-- ===== src/Base/Words.antt =====
-- Machine words as native numbers: casts are remainders, shifts are `*` and `/` by a power.
use Prim.Native.Nat.{ℕ, ◌+◌, ◌-◌, ◌*◌, ◌/◌, ◌%◌, ◌^◌}
use m68k_emu.Base.Tests.{ltb, if◌then◌else◌}

abbrev pub u8 : ℕ → ℕ
u8 n = n % 2 ^ 8

abbrev pub u16 : ℕ → ℕ
u16 n = n % 2 ^ 16

abbrev pub u32 : ℕ → ℕ
u32 n = n % 2 ^ 32

abbrev pub u64 : ℕ → ℕ
u64 n = n % 2 ^ 64

infixl 75 ◌<<<◌ ◌>>>◌
abbrev pub ◌<<<◌ : ℕ → ℕ → ℕ
x <<< k = x * 2 ^ k

abbrev pub ◌>>>◌ : ℕ → ℕ → ℕ
x >>> k = x / 2 ^ k

-- `(uint32_t)(int8_t)x` and `(uint32_t)(int16_t)x`: the bit pattern of the sign extension.
abbrev pub sext8 : ℕ → ℕ
sext8 x = if ltb (u8 x) 0x80 then u8 x else u8 x + 0xffff_ff00

abbrev pub sext16 : ℕ → ℕ
sext16 x = if ltb (u16 x) 0x8000 then u16 x else u16 x + 0xffff_0000

-- `a + b` and `a - b` on uint32_t; `-` on ℕ stops at 0, so the modulus is added first.
abbrev pub add32 : ℕ → ℕ → ℕ
add32 a b = (a + b) % 2 ^ 32

abbrev pub sub32 : ℕ → ℕ → ℕ
sub32 a b = (a + 2 ^ 32 - b % 2 ^ 32) % 2 ^ 32
