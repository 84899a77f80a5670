-- ===== src/Instruction/ShiftCounts.antt =====
-- The shifts and rotations by 1 to 8 places have a result in C++.
use m68k_emu.Base.{ℕ, ◌+◌, ◌<◌, ◌≤◌, ◌≢◌, arith, Bool, true, false}
use m68k_emu.Defines.{DataSize, byte, word, long, err, undefined}
use m68k_emu.Helpers.Rotate.{lsl, lsr, rol_at, ror_at, rol, ror, rest_of, width}
use m68k_emu.CpuState.Definedness.{Defined, defined_rules}
use m68k_emu.Instruction.Class.{BitShiftType, arithmetic}
use m68k_emu.Instruction.BitShift

-- A count for which every shift of a rotation at this width is one by less than 64.
abbrev pub Small : ℕ → Type 0
Small shift = (1 ≤ shift) × (shift ≤ 8)

pub lsl-defined : (a b : ℕ) → b < 64 → lsl a b ≢ err undefined
unfolding lsl
lsl-defined a b h e = ground (arith, e)

pub lsr-defined : (a b : ℕ) → b < 64 → lsr a b ≢ err undefined
unfolding lsr
lsr-defined a b h e = ground (arith, e)

rest-lt : (w b : ℕ) → b ≤ w → w < 64 → rest_of w b < 64
rest-lt w b h k = omega arith

rol_at-defined : (w a b : ℕ) → b ≤ w → w < 64 → rol_at w a b ≢ err undefined
unfolding rol_at lsl lsr
rol_at-defined w a b h k e = ground (arith, e, rest-lt w b h k)

ror_at-defined : (w a b : ℕ) → b ≤ w → w < 64 → ror_at w a b ≢ err undefined
unfolding ror_at lsl lsr
ror_at-defined w a b h k e = ground (arith, e, rest-lt w b h k)

width-bounds : (size : DataSize) → (8 ≤ width size) × (width size < 63)
width-bounds byte = (omega arith, omega arith)
width-bounds word = (omega arith, omega arith)
width-bounds long = (omega arith, omega arith)

module _ (size : DataSize) (a shift : ℕ) (h : Small shift) where
  rol-defined : rol a shift size ≢ err undefined
  unfolding rol rol_at lsl lsr
  rol-defined e = ground (
    arith,
    e,
    width-bounds size,
    rest-lt (width size) shift (omega (arith, width-bounds size))
        (omega (arith, width-bounds size)),
  )

  ror-defined : ror a shift size ≢ err undefined
  unfolding ror ror_at lsl lsr
  ror-defined e = ground (
    arith,
    e,
    width-bounds size,
    rest-lt (width size) shift (omega (arith, width-bounds size))
        (omega (arith, width-bounds size)),
  )

  rol_extended-defined : rol_at (width size + 1) a shift ≢ err undefined
  rol_extended-defined =
      rol_at-defined (width size + 1) a shift (omega (arith, width-bounds size))
        (omega (arith, width-bounds size))

  ror_extended-defined : ror_at (width size + 1) a shift ≢ err undefined
  ror_extended-defined =
      ror_at-defined (width size + 1) a shift (omega (arith, width-bounds size))
        (omega (arith, width-bounds size))

  lsl-Small : lsl a shift ≢ err undefined
  lsl-Small = lsl-defined a shift (omega arith)

  lsr-Small : lsr a shift ≢ err undefined
  lsr-Small = lsr-defined a shift (omega arith)

  lsr_last-Small : lsr a (rest_of shift 1) ≢ err undefined
  lsr_last-Small = lsr-defined a (rest_of shift 1) (omega arith)

  lsr_leaving-Small : lsr a (rest_of 8 shift) ≢ err undefined
  lsr_leaving-Small = lsr-defined a (rest_of 8 shift) (omega arith)

  lsl_leaving-Small : lsl a (rest_of 9 shift) ≢ err undefined
  lsl_leaving-Small = lsl-defined a (rest_of 9 shift) (omega arith)

ruleset rules = (
  defined_rules, rol-defined, ror-defined, rol_extended-defined, ror_extended-defined, lsl-Small,
  lsr-Small, lsr_last-Small, lsr_leaving-Small, lsl_leaving-Small,
)

pub shifted-Defined :
    (type : BitShiftType) (left : Bool) (size : DataSize) (addr_data shift : ℕ)
    → Small shift
    → Defined (BitShift.shifted type left size addr_data shift)
unfolding BitShift.shifted BitShift.set_carry_extend BitShift.shift_left BitShift.shift_right
    BitShift.rotate_extend_left BitShift.rotate_extend_right BitShift.rotate_left
    BitShift.rotate_right
shifted-Defined arithmetic true size addr_data shift h = search rules depth 9
shifted-Defined arithmetic false size addr_data shift h = search rules depth 9
shifted-Defined _ true size addr_data shift h = search rules depth 9
shifted-Defined _ false size addr_data shift h = search rules depth 9
