-- ===== src/Cpu/Countdown.antt =====
-- A loop of two instructions, `subq.w #1, Dj` and `bne.s` back to it, run by `steps` of src/cpu.cpp.
use m68k_emu.Base.{
  ℕ, zero, suc, ◌-◌, ◌*◌, ◌%◌, ◌^◌, ◌≡◌, ◌≢◌, ◌≤◌, ◌<◌, ◌∙◌, arith, refl, ap, subst, add32, sub32,
  sext8, ◌==◌, not, if◌then◌else◌,
}
use m68k_emu.Defines.{RegisterType, word, long, reg_pc, not_equal, ok}
use m68k_emu.Registers
use m68k_emu.Registers.{Registers}
use m68k_emu.Registers.ReadBack.{same_narrow}
use m68k_emu.Memory
use m68k_emu.CpuState.{CpuState, ◌>>=◌}
use m68k_emu.CpuState.Validity.{IsValid}
use m68k_emu.Instruction.RegisterForms.{past, Stores}
use m68k_emu.Instruction.Branches.{branched, taken}
use m68k_emu.Cpu.{step, steps}
use m68k_emu.Cpu.SingleSteps.{
  Loaded, subq_step, bne_step, past-zero, Branched, branched_lem, after_step, two_steps,
}

-- What one round of the loop leaves, where the counter stood at `k`.
record OneRound (mem_size : ℕ) (j : RegisterType) (p k : ℕ) (s s' : CpuState) : Type 0 where
  pub memory : s'.memory ≡ s.memory
  pub valid : IsValid mem_size s'
  pub counted : Registers.get s'.registers j word ≡ (k - 1) % 2 ^ 16
  pub counter : Registers.get s'.registers reg_pc long ≡ (if k == 1 then add32 p 4 else p)
  pub others :
      (i : RegisterType)
      → i < 15
      → j ≢ i
      → Registers.get s'.registers i long ≡ Registers.get s.registers i long

-- What the end of a round leaves, from the state after SUBQ.
round_end :
    (mem_size : ℕ) (j : RegisterType) (p k : ℕ) (s s1 s2 : CpuState)
    → j < 8
    → p < 2 ^ 32
    → 1 ≤ k
    → k ≤ 2 ^ 16
    → IsValid mem_size s1
    → IsValid mem_size s2
    → Registers.get s.registers reg_pc long ≡ p
    → Stores word j 1 (k % 2 ^ 16) (sub32 (k % 2 ^ 16) 1) s s1
    → Branched (not (k == 1)) p s1 s2
    → OneRound mem_size j p k s s2
round_end mem_size j p k s s1 s2 hj hp k1 k2 v1 v2 e st br = record {
  memory = br.memory ∙ st.memory;
  valid = v2;
  counted =
      same_narrow s1.registers s2.registers j word v1.registers v2.registers
        (br.others j (omega arith))
      ∙ st.stored
      ∙ omega arith;
  counter = br.counter ∙ ground (arith, st.counter);
  others = λ i hi ne. br.others i hi ∙ st.others i hi ne;
}

round :
    (mem_size : ℕ) (j : RegisterType) (p k : ℕ) (s : CpuState)
    → Loaded mem_size j p s
    → j < 8
    → p < 2 ^ 32
    → 1 ≤ k
    → k ≤ 2 ^ 16
    → Registers.get s.registers reg_pc long ≡ p
    → Registers.get s.registers j word ≡ k % 2 ^ 16
    → (s' : CpuState) × ((c : ℕ) → steps (suc (suc c)) s ≡ steps c s')
      × OneRound mem_size j p k s s'
round mem_size j p k s l hj hp k1 k2 e d =
    let (s1, run1, stores) = subq_step mem_size j p s l hj e in
    let st : Stores word j 1 (k % 2 ^ 16) (sub32 (k % 2 ^ 16) 1) s s1 =
      subst (λ x. Stores word j 1 x (sub32 x 1) s s1) d stores in
    let v1 = after_step mem_size s l.valid run1 in
    let l1 : Loaded mem_size j p s1 = record {
      valid = v1;
      first = ap (λ m. Memory.get m p word) st.memory ∙ l.first;
      second = ap (λ m. Memory.get m (add32 p 2) word) st.memory ∙ l.second;
    } in
    let at : Registers.get s1.registers reg_pc long ≡ add32 p 2 =
      st.counter ∙ ap (λ x. add32 x 2) e in
    let again : taken not_equal (past s1.registers) ≡ not (k == 1) =
      ap not (past-zero s1.registers ∙ st.flags.zero ∙ ground arith) in
    let target : add32 (add32 (add32 p 2) 2) (sext8 0xfc) ≡ p = omega arith in
    let s2 = branched (not (k == 1)) p (record s1 { registers = past s1.registers }) in
    let run2 : step s1 ≡ (ok tt, s2) = bne_step mem_size j p s1 l1 at ∙ rw (again, target) refl in
    (
      s2,
      two_steps s s1 s2 run1 run2,
      round_end mem_size j p k s s1 s2 hj hp k1 k2 v1 (after_step mem_size s1 v1 run2) e st
          (branched_lem (not (k == 1)) p s1 v1.registers hp),
    )

-- What the loop leaves.
pub record Counted (j : RegisterType) (p : ℕ) (s s' : CpuState) : Type 0 where
  pub memory : s'.memory ≡ s.memory
  pub counted : Registers.get s'.registers j word ≡ 0
  pub counter : Registers.get s'.registers reg_pc long ≡ add32 p 4
  pub others :
      (i : RegisterType)
      → i < 15
      → j ≢ i
      → Registers.get s'.registers i long ≡ Registers.get s.registers i long

doubled :
    (s s1 : CpuState) (k : ℕ)
    → ((c : ℕ) → steps (suc (suc c)) s ≡ steps c s1)
    → steps (2 * suc k) s ≡ steps (2 * k) s1
doubled s s1 k run = subst (λ c. steps c s ≡ steps (2 * k) s1) (omega arith) (run (2 * k))

stop : (s : CpuState) → steps 0 s ≡ (ok tt, s)
unfolding steps ◌>>=◌
stop s = refl

-- A well-formed state whose memory holds `subq.w #1, Dj` and `bne.s -4` at PC leaves the loop of
-- these two instructions after two steps for each unit of the counter, where the low word of Dj is
-- the counter and 0 stands for 65536. Then the low word of Dj is 0, PC is past the loop, and the
-- memory, the other data registers and A0 to A6 are as before.
pub steps_countdown :
    (mem_size : ℕ) (j : RegisterType) (p k : ℕ) (s : CpuState)
    → Loaded mem_size j p s
    → j < 8
    → p < 2 ^ 32
    → k < 2 ^ 16
    → Registers.get s.registers reg_pc long ≡ p
    → Registers.get s.registers j word ≡ suc k % 2 ^ 16
    → (s' : CpuState) × (steps (2 * suc k) s ≡ (ok tt, s')) × Counted j p s s'
steps_countdown mem_size j p zero s l hj hp hk e d =
    let (s1, run, r) = round mem_size j p 1 s l hj hp (omega arith) (omega arith) e d in
    (
      s1,
      doubled s s1 zero run ∙ stop s1,
      record { memory = r.memory; counted = r.counted; counter = r.counter; others = r.others },
    )
steps_countdown mem_size j p (suc k) s l hj hp hk e d =
    let (s1, run, r) = round mem_size j p (suc (suc k)) s l hj hp (omega arith) (omega arith) e d in
    let l1 : Loaded mem_size j p s1 = record {
      valid = r.valid;
      first = ap (λ m. Memory.get m p word) r.memory ∙ l.first;
      second = ap (λ m. Memory.get m (add32 p 2) word) r.memory ∙ l.second;
    } in
    let (s', run', c) =
      steps_countdown mem_size j p k s1 l1 hj hp (omega arith) (r.counter ∙ ground arith)
        (r.counted ∙ omega arith) in
    (
      s',
      doubled s s1 (suc k) run ∙ run',
      record {
        memory = c.memory ∙ r.memory;
        counted = c.counted;
        counter = c.counter;
        others = λ i hi ne. c.others i hi ne ∙ r.others i hi ne;
      },
    )
