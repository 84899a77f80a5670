-- ===== src/Memory/Interface.antt =====
-- `IMemory` of include/memory.hpp, the interface behind which the processor keeps its memory, and a
-- client of it: a list of calls, with what each of them gives back.
use m68k_emu.Base.{ℕ, u32, ◌≡◌, List, [], ◌∷◌, ◌∙◌, refl, sym, ap, ap₂}
use m68k_emu.Defines.{DataSize, Result, ok, err}

-- The two virtual methods, on a memory of the type `M`.
pub record IMemory (M : Type 0) : Type 0 where
  pub get : M → ℕ → DataSize → Result ℕ
  pub set : M → ℕ → DataSize → ℕ → Result M

-- The template `set_`: the size is that of the type of the value.
unfoldable pub set_ : {M : Type 0} → IMemory M → M → ℕ → DataSize → ℕ → Result M
set_ memory m address size_of_type value = memory.set m address size_of_type (u32 value)

pub data Call : Type 0 where
  reads : ℕ → DataSize → Call
  writes : ℕ → DataSize → ℕ → Call

-- What a write that returns or throws leaves to the calls after it, and what it answers.
abbrev pub left_by : {M : Type 0} → M → Result M → M
left_by m (ok m') = m'
left_by m (err e) = m

abbrev pub mapped : {M N : Type 0} → (M → N) → Result M → Result N
mapped f (ok m) = ok (f m)
mapped f (err e) = err e

-- A write that returns answers 0.
abbrev pub answered : {M : Type 0} → Result M → Result ℕ
answered r = mapped (λ m. 0) r

-- The answers to a list of calls.
unfoldable pub answers : {M : Type 0} → IMemory M → List Call → M → List (Result ℕ)
answers memory [] m = []
answers memory (reads address size ∷ calls) m = memory.get m address size ∷ answers memory calls m
answers memory (writes address size value ∷ calls) m =
    let outcome = memory.set m address size value in
    answered outcome ∷ answers memory calls (left_by m outcome)

-- `i`, on the values that are `Valid`, does what `j` does on the view that `abs` has of them.
pub record Refines {M N : Type 0} (Valid : M → Type 0) (abs : M → N) (i : IMemory M) (j : IMemory N)
    : Type 0 where
  pub get_refines :
      (m : M) (address : ℕ) (size : DataSize)
      → Valid m
      → i.get m address size ≡ j.get (abs m) address size
  pub set_refines :
      (m : M) (address : ℕ) (size : DataSize) (value : ℕ)
      → Valid m
      → mapped abs (i.set m address size value) ≡ j.set (abs m) address size value
  pub left-Valid :
      (m : M) (address : ℕ) (size : DataSize) (value : ℕ)
      → Valid m
      → Valid (left_by m (i.set m address size value))

left_by-mapped :
    {M N : Type 0} (abs : M → N) (m : M) (r : Result M)
    → left_by (abs m) (mapped abs r) ≡ abs (left_by m r)
left_by-mapped abs m (ok m') = refl
left_by-mapped abs m (err e) = refl

answered-mapped : {M N : Type 0} (abs : M → N) (r : Result M) → answered (mapped abs r) ≡ answered r
answered-mapped abs (ok m) = refl
answered-mapped abs (err e) = refl

module _ {M N : Type 0} {Valid : M → Type 0} {abs : M → N} {i : IMemory M} {j : IMemory N}
    (h : Refines Valid abs i j) where
  -- No list of calls tells the two apart.
  pub answers_refine :
      (calls : List Call) (m : M) → Valid m → answers i calls m ≡ answers j calls (abs m)
  unfolding answers
  answers_refine [] m v = refl
  answers_refine (reads address size ∷ calls) m v =
      ap₂ ◌∷◌ (h.get_refines m address size v) (answers_refine calls m v)
  answers_refine (writes address size value ∷ calls) m v =
      let same = h.set_refines m address size value v in
      let outcome = i.set m address size value in
      ap₂ ◌∷◌ (sym (answered-mapped abs outcome) ∙ ap answered same) (
        answers_refine calls (left_by m outcome) (h.left-Valid m address size value v)
        ∙ ap (answers j calls) (sym (left_by-mapped abs m outcome) ∙ ap (left_by (abs m)) same))
