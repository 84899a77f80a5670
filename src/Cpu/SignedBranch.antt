-- ===== src/Cpu/SignedBranch.antt =====
-- A move and a branch on what it moved, src/instructions/move.cpp and bcc.cpp: the conditions on
-- signed numbers.
use m68k_emu.Base.{
  ℕ, ◌≡◌, ◌≢◌, ◌<◌, ◌&&◌, ◌∙◌, arith, sym, ap, ap₂, subst, refl, Bool, true, false, not, leb, ◌==◌,
  zero, suc, if◌then◌else◌, add32, sext8,
}
use m68k_emu.Base.Int.{ℤ, pos, negsuc}
use m68k_emu.Defines.{
  DataSize, byte, word, long, RegisterType, reg_pc, flag_negative, flag_overflow, Condition,
  not_equal, equal, plus, minus, greater_equal, less_than, greater_than, less_equal, ok,
}
use m68k_emu.Helpers.Flags.{half}
use m68k_emu.Helpers.Overflow.{to_signed}
use m68k_emu.Registers
use m68k_emu.Registers.{Registers}
use m68k_emu.Registers.ReadBack.{same_narrow}
use m68k_emu.CpuState.{CpuState, holds, ◌>>=◌, ◌>>◌}
use m68k_emu.CpuState.Validity.{IsValid}
use m68k_emu.Instruction.Class.{Bcc, move, bcc}
use m68k_emu.Instruction.Branches.{taken, branched, execute_short}
use m68k_emu.Instruction.RegisterForms.{past}
use m68k_emu.Instruction.RegisterForms.Transfer.{transfer, Moves, move_registers}
use m68k_emu.Cpu.{execute}
use m68k_emu.Cpu.Validity.{execute-IsValid}
use m68k_emu.Cpu.SingleSteps.{past-zero, branched_lem}

-- Below zero, zero, and above zero.
abbrev is_below : ℤ → Bool
is_below (pos n) = false
is_below (negsuc n) = true

abbrev is_null : ℤ → Bool
is_null (pos n) = n == 0
is_null (negsuc n) = false

abbrev is_above : ℤ → Bool
is_above (pos zero) = false
is_above (pos (suc n)) = true
is_above (negsuc n) = false

-- What a condition says of an integer against zero, where it is one of PL, MI, GE, LT, GT, LE, NE
-- and EQ.
abbrev pub is_against_zero : Condition → Bool
is_against_zero plus = true
is_against_zero minus = true
is_against_zero greater_equal = true
is_against_zero less_than = true
is_against_zero greater_than = true
is_against_zero less_equal = true
is_against_zero not_equal = true
is_against_zero equal = true
is_against_zero _ = false

abbrev pub against_zero : Condition → ℤ → Bool
against_zero plus x = not (is_below x)
against_zero minus x = is_below x
against_zero greater_equal x = not (is_below x)
against_zero less_than x = is_below x
against_zero greater_than x = is_above x
against_zero less_equal x = not (is_above x)
against_zero not_equal x = not (is_null x)
against_zero equal x = is_null x
against_zero _ x = false

past-negative :
    (r : Registers) → Registers.get_flag (past r) flag_negative ≡ Registers.get_flag r flag_negative
unfolding Registers.get_flag Registers.set Registers.physical
past-negative r = ground arith

past-overflow :
    (r : Registers) → Registers.get_flag (past r) flag_overflow ≡ Registers.get_flag r flag_overflow
unfolding Registers.get_flag Registers.set Registers.physical
past-overflow r = ground arith

below-to_signed :
    (size : DataSize) (value : ℕ) → is_below (to_signed size value) ≡ leb (half size) value
below-to_signed size value = ground arith

null-to_signed : (size : DataSize) (value : ℕ) → is_null (to_signed size value) ≡ (value == 0)
null-to_signed byte value = ground arith
null-to_signed word value = ground arith
null-to_signed long value = ground arith

above_lem : (x : ℤ) → is_above x ≡ (not (is_below x) && not (is_null x))
above_lem (pos zero) = refl
above_lem (pos (suc n)) = ground arith
above_lem (negsuc n) = refl

agree :
    (c : Condition) (x : ℤ) (carry : Bool) {n z v : Bool}
    → n ≡ is_below x
    → z ≡ is_null x
    → v ≡ false
    → is_against_zero c ≡ true
    → holds c n z v carry ≡ against_zero c x
agree plus x b e f o u = ground (arith, e, f, o)
agree minus x b e f o u = ground (arith, e, f, o)
agree greater_equal x b e f o u = ground (arith, e, f, o)
agree less_than x b e f o u = ground (arith, e, f, o)
agree greater_than x b e f o u = ground (arith, e, f, o, above_lem x)
agree less_equal x b e f o u = ground (arith, e, f, o, above_lem x)
agree not_equal x b e f o u = ground (arith, e, f, o)
agree equal x b e f o u = ground (arith, e, f, o)
agree _ x b e f o u = absurd (cc u)

taken_signed :
    (c : Condition) (size : DataSize) (j : RegisterType) (value : ℕ) (s s' : CpuState)
    → is_against_zero c ≡ true
    → Moves size j value s s'
    → taken c (past s'.registers) ≡ against_zero c (to_signed size value)
taken_signed c size j value s s' u k =
    agree c (to_signed size value) _
      (past-negative s'.registers ∙ k.flags.negative ∙ sym (below-to_signed size value))
      (past-zero s'.registers ∙ k.flags.zero ∙ sym (null-to_signed size value))
      (past-overflow s'.registers ∙ k.flags.overflow) u

-- In a well-formed state, `MOVE.size Di, Dj` on data registers and then a branch on PL, MI, GE, LT,
-- GT, LE, NE or EQ with its displacement in the opcode both return. Dj then reads at the size as Di
-- did, and the branch is taken exactly if this value, as a signed number of the size, is not below,
-- below, not below, below, above, not above, not equal to or equal to zero. The memory, the other
-- data registers and A0 to A6 stay.
pub branch-move :
    (mem_size : ℕ) (size : DataSize) (i j : RegisterType) (f : Bcc) (s : CpuState)
    → IsValid mem_size s
    → i < 8
    → j < 8
    → f.data_size ≡ byte
    → is_against_zero f.condition ≡ true
    → (s' : CpuState) × ((execute (move (transfer size i j)) >> execute (bcc f)) s ≡ (ok tt, s'))
      × (s'.memory ≡ s.memory)
      × (Registers.get s'.registers j size ≡ Registers.get s.registers i size)
      × ((k : RegisterType)
          → k < 15
          → j ≢ k
          → Registers.get s'.registers k long ≡ Registers.get s.registers k long)
      × (Registers.get s'.registers reg_pc long ≡ (
          let next = add32 (Registers.get s.registers reg_pc long) 4 in
          if against_zero f.condition (to_signed size (Registers.get s.registers i size))
          then add32 next (sext8 f.displacement_8)
          else next))
unfolding execute ◌>>=◌
branch-move mem_size size i j f s v hi hj hd u =
    let value = Registers.get s.registers i size in
    let (s1, run1, c) = move_registers size i j s v.registers hi hj in
    let v1 : IsValid mem_size s1 =
      subst (λ q. IsValid mem_size q.1) run1
        ((execute-IsValid (move (transfer size i j))).at s v) in
    let pc1 = Registers.get s1.registers reg_pc long in
    let target = add32 (add32 pc1 2) (sext8 f.displacement_8) in
    let b = taken f.condition (past s1.registers) in
    let run2 =
      execute_short f s1 hd (λ e. cc (sym u ∙ ap is_against_zero e))
        (λ e. cc (sym u ∙ ap is_against_zero e)) in
    let br = branched_lem b target s1 v1.registers (omega arith) in
    let s2 = branched b target (record s1 { registers = past s1.registers }) in
    let v2 : IsValid mem_size s2 =
      subst (λ q. IsValid mem_size q.1) run2 ((execute-IsValid (bcc f)).at s1 v1) in
    (
      s2,
      rw run1 run2,
      br.memory ∙ c.memory,
      same_narrow s1.registers s2.registers j size v1.registers v2.registers
            (br.others j (omega arith))
          ∙ c.stored,
      λ k hk ne. br.others k hk ∙ c.others k hk ne,
      br.counter
          ∙ ap₂ (λ x n. if x then add32 n (sext8 f.displacement_8) else n)
              (taken_signed f.condition size j value s s1 u c)
              (ap (λ x. add32 x 2) c.counter ∙ omega arith),
    )
