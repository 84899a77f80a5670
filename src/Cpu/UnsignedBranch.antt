-- ===== src/Cpu/UnsignedBranch.antt =====
-- A comparison and a branch on it, src/instructions/cmp.cpp and bcc.cpp: the conditions on unsigned
-- numbers.
use m68k_emu.Base.{
  ℕ, ◌≡◌, ◌≢◌, ◌<◌, ◌∙◌, arith, sym, ap, ap₂, subst, Bool, true, false, not, leb, ltb, ◌==◌,
  if◌then◌else◌, add32, sext8,
}
use m68k_emu.Defines.{
  DataSize, byte, long, RegisterType, reg_pc, flag_carry, Condition, higher, lower_same,
  carry_clear, carry_set, not_equal, equal, ok,
}
use m68k_emu.Registers
use m68k_emu.Registers.{Registers}
use m68k_emu.CpuState.{CpuState, holds, ◌>>=◌, ◌>>◌}
use m68k_emu.CpuState.Validity.{IsValid}
use m68k_emu.Instruction.Class.{Bcc, cmp, bcc}
use m68k_emu.Instruction.Branches.{taken, execute_short}
use m68k_emu.Instruction.RegisterForms.{registers, past}
use m68k_emu.Instruction.RegisterForms.Compare.{Compares, cmp_registers}
use m68k_emu.Cpu.{execute}
use m68k_emu.Cpu.Validity.{execute-IsValid}
use m68k_emu.Cpu.SingleSteps.{past-zero, branched_lem}

-- What a condition says of two unsigned numbers, where it is one of HI, LS, CC, CS, NE and EQ.
abbrev pub is_unsigned : Condition → Bool
is_unsigned higher = true
is_unsigned lower_same = true
is_unsigned carry_clear = true
is_unsigned carry_set = true
is_unsigned not_equal = true
is_unsigned equal = true
is_unsigned _ = false

abbrev pub compares : Condition → (dest src : ℕ) → Bool
compares higher dest src = ltb src dest
compares lower_same dest src = leb dest src
compares carry_clear dest src = leb src dest
compares carry_set dest src = ltb dest src
compares not_equal dest src = not (dest == src)
compares equal dest src = dest == src
compares _ dest src = false

past-carry :
    (r : Registers) → Registers.get_flag (past r) flag_carry ≡ Registers.get_flag r flag_carry
unfolding Registers.get_flag Registers.set Registers.physical
past-carry r = ground arith

taken_unsigned :
    (c : Condition) (size : DataSize) (src dest : ℕ) (s s' : CpuState)
    → is_unsigned c ≡ true
    → size ≢ long
    → Compares size src dest s s'
    → taken c (past s'.registers) ≡ compares c dest src
taken_unsigned c size src dest s s' u ne k =
    agree c _ _ (past-zero s'.registers ∙ k.equal) (past-carry s'.registers ∙ k.below ne) u
  where
    agree :
        (c : Condition) (n v : Bool) {z x : Bool}
        → z ≡ (dest == src)
        → x ≡ ltb dest src
        → is_unsigned c ≡ true
        → holds c n z v x ≡ compares c dest src
    agree higher n v e f u = ground (arith, e, f)
    agree lower_same n v e f u = ground (arith, e, f)
    agree carry_clear n v e f u = ground (arith, e, f)
    agree carry_set n v e f u = ground (arith, e, f)
    agree not_equal n v e f u = ground (arith, e, f)
    agree equal n v e f u = ground (arith, e, f)
    agree _ n v e f u = absurd (cc u)

-- In a well-formed state, `CMP.size Di, Dj` at a byte or a word and then a branch on HI, LS, CC, CS, NE or
-- EQ with its displacement in the opcode both return. The branch is taken exactly if Dj is above, not
-- above, not below, below, not equal to or equal to Di, as unsigned numbers of the size. The memory,
-- the data registers and A0 to A6 stay.
pub branch-cmp :
    (mem_size : ℕ) (size : DataSize) (i j : RegisterType) (f : Bcc) (s : CpuState)
    → IsValid mem_size s
    → i < 8
    → j < 8
    → size ≢ long
    → f.data_size ≡ byte
    → is_unsigned f.condition ≡ true
    → (s' : CpuState) × ((execute (cmp (registers size i j)) >> execute (bcc f)) s ≡ (ok tt, s'))
      × (s'.memory ≡ s.memory)
      × ((k : RegisterType)
          → k < 15
          → Registers.get s'.registers k long ≡ Registers.get s.registers k long)
      × (Registers.get s'.registers reg_pc long ≡ (
          let next = add32 (Registers.get s.registers reg_pc long) 4 in
          if compares f.condition
            (Registers.get s.registers j size)
            (Registers.get s.registers i size)
          then add32 next (sext8 f.displacement_8)
          else next))
unfolding execute ◌>>=◌
branch-cmp mem_size size i j f s v hi hj ne hd u =
    let src = Registers.get s.registers i size in
    let dest = Registers.get s.registers j size in
    let (s1, run1, c) = cmp_registers size i j s v.registers hi hj in
    let v1 : IsValid mem_size s1 =
      subst (λ q. IsValid mem_size q.1) run1
        ((execute-IsValid (cmp (registers size i j))).at s v) in
    let pc1 = Registers.get s1.registers reg_pc long in
    let target = add32 (add32 pc1 2) (sext8 f.displacement_8) in
    let b = taken f.condition (past s1.registers) in
    let run2 =
      execute_short f s1 hd (λ e. cc (sym u ∙ ap is_unsigned e))
        (λ e. cc (sym u ∙ ap is_unsigned e)) in
    let br = branched_lem b target s1 v1.registers (omega arith) in
    (
      _,
      rw run1 run2,
      br.memory ∙ c.memory,
      λ k hk. br.others k hk ∙ c.others k hk,
      br.counter
          ∙ ap₂ (λ x n. if x then add32 n (sext8 f.displacement_8) else n)
              (taken_unsigned f.condition size src dest s s1 u ne c)
              (ap (λ x. add32 x 2) c.counter ∙ omega arith),
    )
