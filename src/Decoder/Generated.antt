-- ===== src/Decoder/Generated.antt =====
-- The generated table holds, at every opcode, what the mask table picks for it.
use native.Mathlib.Nat.{add-zero, zero-add}
use m68k_emu.Base.{
  ℕ, zero, suc, ◌+◌, ◌^◌, ◌<◌, ◌≡◌, refl, ap, arith, Bool, true, false, Bool-cases, ◌==◌, bit_and,
  inl, inr, none, some, List, [], ◌∷◌, if◌then◌else◌,
}
use m68k_emu.Base.Lists.{get_elem?, All}
use m68k_emu.Defines.{ok}
use m68k_emu.Instruction.Class.{Instruction}
use m68k_emu.Instruction.Illegal
use m68k_emu.Decoder.Table.{MaskTableElement, opcode_mask_table}
use m68k_emu.Decoder.{candidate, or_illegal, entry, generate, opcode_table, found, decode}

generate_at :
    (count start i : ℕ)
    → i < count
    → get_elem? (generate count start none) i ≡ some (entry (start + i) none)
unfolding generate
generate_at zero start i h = absurd (omega arith)
generate_at (suc count) start zero h = rw add-zero
generate_at (suc count) start (suc i) h =
    let moved : start + 1 + i ≡ start + suc i = omega arith in
    rw (← moved) (generate_at count (start + 1) i (omega arith))

-- Every 16-bit opcode has an entry, so decoding never fails, and the entry is what one pass over
-- the mask table gives, whatever opcodes came before.
pub decode_lem : (opcode : ℕ) → opcode < 2 ^ 16 → decode opcode ≡ ok (entry opcode none)
unfolding decode opcode_table
decode_lem opcode h = ap found (rw zero-add at (generate_at 0x1_0000 0 opcode h))

-- What holds of every valid instruction that a row creates, and of `Illegal`, holds of what one
-- pass over the rows gives.
module _ (P : Instruction → Type 0) where
  abbrev pub Creates : MaskTableElement → Type 0
  Creates e =
      (opcode : ℕ) → (e.create_function opcode).is_valid ≡ true → P (e.create_function opcode)

  kept :
      (b : Bool) (instruction : Instruction) (opcode : ℕ)
      → (b ≡ true → P instruction)
      → P (Illegal.create opcode)
      → P (or_illegal (if b then some instruction else none) opcode)
  kept true instruction opcode h hi = h refl
  kept false instruction opcode h hi = hi

  candidate_holds :
      (es : List MaskTableElement) (opcode : ℕ)
      → All Creates es
      → P (Illegal.create opcode)
      → P (or_illegal (candidate es opcode none) opcode)
  unfolding candidate
  candidate_holds [] opcode hs hi = hi
  candidate_holds (e ∷ es) opcode hs hi = elim (Bool-cases (bit_and opcode e.mask == e.value)) [
    | inl fits ↦ rw fits (
        kept (e.create_function opcode).is_valid (e.create_function opcode) opcode (hs.0 opcode) hi)
    | inr other ↦ rw other (candidate_holds es opcode hs.1 hi)
  ]

  pub entry_holds :
      (opcode : ℕ)
      → All Creates opcode_mask_table
      → P (Illegal.create opcode)
      → P (entry opcode none)
  unfolding entry
  entry_holds opcode hs hi = candidate_holds opcode_mask_table opcode hs hi

abbrev pub IsValid : Instruction → Type 0
IsValid instruction = instruction.is_valid ≡ true

rows_valid : (es : List MaskTableElement) → All (Creates IsValid) es
rows_valid [] = tt
rows_valid (e ∷ es) = (λ opcode h. h, rows_valid es)

-- Every entry of the table is valid: a fitting row that creates an invalid object gives
-- `Illegal`.
entry-IsValid : (opcode : ℕ) → IsValid (entry opcode none)
unfolding Illegal.create
entry-IsValid opcode = entry_holds IsValid opcode (rows_valid opcode_mask_table) refl
