-- ===== src/Memory/Refinement.antt =====
-- `BaseMemory` of src/memory.cpp, as an implementation of `IMemory`, refines the partial map of
-- `Memory/Cells`.
use m68k_emu.Base.{
  ℕ, ◌+◌, ◌%◌, ◌≡◌, ◌≢◌, ◌∙◌, refl, sym, ap, ◌⊎◌, inl, inr, true, false, List, arith,
}
use m68k_emu.Defines.{DataSize, Result, ok, err, byte, word, long, bytes}
use m68k_emu.Memory.{BaseMemory, is_byte, get, set}
use native.Mathlib.Decide.{dec_le}
use m68k_emu.Memory.Bytes.{IsBytes}
use m68k_emu.Memory.Errors.{Aligned, bus, check_odd, check_out_of_range}
use m68k_emu.Memory.Access.{get_ok, set_ok, set-IsBytes}
use m68k_emu.Memory.Interface.{IMemory, mapped, Refines, left_by, Call, answers, answers_refine}
use m68k_emu.Memory.Cells.{cells, found, is_misaligned, cell_store}
use m68k_emu.Memory.Filling.{fetch_inside, fetch_past, store_inside, store_past}

unfoldable pub base : IMemory BaseMemory
base = record { get = get; set = set }

-- An access is aligned, or it is a word or a long at an odd address.
alignment :
    (address : ℕ) (size : DataSize)
    → (Aligned address size × (is_misaligned address size ≡ false))
      ⊎ ((is_byte size ≢ true) × (bus address % 2 ≡ 1) × (is_misaligned address size ≡ true))
alignment address byte = inl (tt, refl)
alignment address word = elim (dec_le 1 (bus address % 2)) [
  | yes h ↦ inr (λ e. cc e, omega arith, ground arith)
  | no h ↦ inl (omega arith, ground arith)
]
alignment address long = elim (dec_le 1 (bus address % 2)) [
  | yes h ↦ inr (λ e. cc e, omega arith, ground arith)
  | no h ↦ inl (omega arith, ground arith)
]

module _ (m : BaseMemory) (address : ℕ) (size : DataSize) where
  get-cells : IsBytes m.base_addr → get m address size ≡ cell_store.get (cells m) address size
  unfolding cell_store get
  get-cells h = elim (alignment address size) [
    | inl a ↦ rw a.1 (elim (dec_le (bus address + bytes size) m.mem_size) [
      | yes f ↦ get_ok m address size h a.0 f ∙ sym (ap found (fetch_inside m (bus address) size f))
      | no f ↦
          rw (get, check_out_of_range m.mem_size address size a.0 (omega arith))
            (sym (ap found (fetch_past m (bus address) size (omega arith))))
    ])
    | inr o ↦ rw (o.2, get, check_odd m.mem_size address size o.0 o.1) refl
  ]

  set-cells :
      (value : ℕ)
      → mapped cells (set m address size value) ≡ cell_store.set (cells m) address size value
  unfolding cell_store set
  set-cells value = elim (alignment address size) [
    | inl a ↦ rw a.1 (elim (dec_le (bus address + bytes size) m.mem_size) [
      | yes f ↦
          ap (mapped cells) (set_ok m address size value a.0 f)
          ∙ sym (ap found (store_inside m (bus address) size value f))
      | no f ↦
          rw (set, check_out_of_range m.mem_size address size a.0 (omega arith))
            (sym (ap found (store_past m (bus address) size value (omega arith))))
    ])
    | inr o ↦ rw (o.2, set, check_odd m.mem_size address size o.0 o.1) refl
  ]

  left-IsBytes :
      (value : ℕ) → IsBytes m.base_addr → IsBytes (left_by m (set m address size value)).base_addr
  left-IsBytes value h = outcome (set m address size value) refl
    where
      outcome :
          (r : Result BaseMemory) → set m address size value ≡ r → IsBytes (left_by m r).base_addr
      outcome (ok m') e = (set-IsBytes m address size value h e).0
      outcome (err x) e = h

base-Refines : Refines (λ m. IsBytes m.base_addr) cells base cell_store
unfolding base
base-Refines = record {
  get_refines = get-cells;
  set_refines = λ m address size value h. set-cells m address size value;
  left-Valid = left-IsBytes;
}

-- On a memory of bytes, a read gives what the partial map of its cells gives, a write leaves the
-- cells that a write to the map leaves, both with the same errors, and bytes stay bytes.
pub memory_refines :
    (m : BaseMemory) (address : ℕ) (size : DataSize) (value : ℕ)
    → IsBytes m.base_addr
    → (get m address size ≡ cell_store.get (cells m) address size)
      × (mapped cells (set m address size value) ≡ cell_store.set (cells m) address size value)
      × IsBytes (left_by m (set m address size value)).base_addr
memory_refines m address size value h = (
  get-cells m address size h,
  set-cells m address size value,
  left-IsBytes m address size value h,
)

-- On a memory of bytes, any list of reads and writes is answered as the partial map of its cells
-- answers it, whichever of them are refused.
pub answers-cells :
    (calls : List Call) (m : BaseMemory)
    → IsBytes m.base_addr
    → answers base calls m ≡ answers cell_store calls (cells m)
answers-cells calls m h = answers_refine base-Refines calls m h
