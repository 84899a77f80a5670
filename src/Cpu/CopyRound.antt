-- ===== src/Cpu/CopyRound.antt =====
-- One round of a copying loop, `move.b (A0)+, (A1)+`, `subq.w #1, Dj` and `bne.s` back to the first,
-- run by the step of src/cpu.cpp.
use m68k_emu.Base.{
  ℕ, suc, ◌+◌, ◌-◌, ◌%◌, ◌^◌, ◌≡◌, ◌≢◌, ◌≤◌, ◌<◌, ◌⊎◌, ◌∙◌, sym, arith, refl, ap, subst, none, u16,
  add32, sub32, sext8, update, not, ◌==◌, if◌then◌else◌,
}
use m68k_emu.Defines.{RegisterType, byte, word, long, reg_pc, not_equal, ok}
use m68k_emu.Registers
use m68k_emu.Registers.ReadBack.{same_narrow}
use m68k_emu.Memory
use m68k_emu.Memory.{BaseMemory}
use m68k_emu.Memory.Access.{get-written-Apart}
use m68k_emu.CpuState.{CpuState, ◌>>=◌}
use m68k_emu.CpuState.Validity.{IsValid}
use m68k_emu.Decoder.{entry, candidate}
use m68k_emu.Decoder.Table.{opcode_mask_table}
use m68k_emu.Instruction.{get_condition}
use m68k_emu.Instruction.Bcc
use m68k_emu.Instruction.Class.{bcc}
use m68k_emu.Instruction.RegisterForms.{past, Stores}
use m68k_emu.Instruction.Branches.{branched, taken}
use m68k_emu.Cpu.{step, steps}
use m68k_emu.Cpu.SingleSteps.{
  subq_word, subq_at, bne_fields, bne_at, past-zero, Branched, branched_lem, after_step,
}
use m68k_emu.Cpu.CopyByte.{copy_word, Copies, copy_step, stored_byte}

abbrev pub back_word : ℕ
back_word = 0x66fa

back_entry : (entry (u16 back_word) none).class ≡ bcc (bne_fields 0xfa)
unfolding entry candidate Bcc.create opcode_mask_table get_condition
back_entry = refl

-- The loop at an address.
pub record Program (j : RegisterType) (p : ℕ) (m : BaseMemory) : Type 0 where
  pub copies : Memory.get m p word ≡ ok copy_word
  pub counts : Memory.get m (p + 2) word ≡ ok (subq_word j)
  pub goes_back : Memory.get m (p + 4) word ≡ ok back_word

-- A byte is written beside the word at `q`.
beside :
    (m : BaseMemory) (b value q : ℕ)
    → b < 2 ^ 24
    → value < 2 ^ 8
    → q + 2 ≤ 2 ^ 24
    → (b < q) ⊎ (q + 2 ≤ b)
    → Memory.get (record m { base_addr = update m.base_addr b value }) q word ≡ Memory.get m q word
beside m b value q hb hv hq apart =
    ap (λ k. Memory.get k q word) (sym (stored_byte m b value hb hv))
    ∙ get-written-Apart m b byte value q word (ground arith)

pub Program-update :
    (j : RegisterType) (p : ℕ) (m : BaseMemory) (b value : ℕ)
    → Program j p m
    → b < 2 ^ 24
    → value < 2 ^ 8
    → p + 6 ≤ 2 ^ 24
    → (b < p) ⊎ (p + 6 ≤ b)
    → Program j p (record m { base_addr = update m.base_addr b value })
Program-update j p m b value l hb hv hp apart = record {
  copies = beside m b value p hb hv (omega arith) (ground arith) ∙ l.copies;
  counts = beside m b value (p + 2) hb hv (omega arith) (ground arith) ∙ l.counts;
  goes_back = beside m b value (p + 4) hb hv (omega arith) (ground arith) ∙ l.goes_back;
}

three_steps :
    (s s1 s2 s3 : CpuState)
    → step s ≡ (ok tt, s1)
    → step s1 ≡ (ok tt, s2)
    → step s2 ≡ (ok tt, s3)
    → (c : ℕ) → steps (suc (suc (suc c))) s ≡ steps c s3
unfolding steps ◌>>=◌
three_steps s s1 s2 s3 run1 run2 run3 c = rw run1 (rw run2 (rw run3 refl))

-- What one round leaves, where the counter stood at `k`.
pub record Round (mem_size : ℕ) (j : RegisterType) (a b p k : ℕ) (s s' : CpuState) : Type 0 where
  pub memory :
      s'.memory ≡ record s.memory { base_addr = update s.memory.base_addr b (s.memory.base_addr a) }
  pub valid : IsValid mem_size s'
  pub program : Program j p s'.memory
  pub source : Registers.get s'.registers 8 long ≡ a + 1
  pub dest : Registers.get s'.registers 9 long ≡ b + 1
  pub counted : Registers.get s'.registers j word ≡ (k - 1) % 2 ^ 16
  pub counter : Registers.get s'.registers reg_pc long ≡ (if k == 1 then p + 6 else p)
  pub others :
      (i : RegisterType)
      → i < 15
      → i ≢ 8
      → i ≢ 9
      → j ≢ i
      → Registers.get s'.registers i long ≡ Registers.get s.registers i long

-- The three steps put together.
three_stored :
    (mem_size : ℕ) (j : RegisterType) (a b p k : ℕ) (s s1 s2 s3 : CpuState)
    → j < 8
    → p + 6 ≤ 2 ^ 24
    → 1 ≤ k
    → k ≤ 2 ^ 16
    → IsValid mem_size s2
    → IsValid mem_size s3
    → Program j p s1.memory
    → Registers.get s1.registers reg_pc long ≡ p + 2
    → Copies a b s s1
    → Stores word j 1 (k % 2 ^ 16) (sub32 (k % 2 ^ 16) 1) s1 s2
    → Branched (not (k == 1)) p s2 s3
    → Round mem_size j a b p k s s3
three_stored mem_size j a b p k s s1 s2 s3 hj hp k1 k2 v2 v3 l e co st br = record {
  memory = br.memory ∙ st.memory ∙ co.memory;
  valid = v3;
  program = subst (λ m. Program j p m) (sym (br.memory ∙ st.memory)) l;
  source = br.others 8 (omega arith) ∙ st.others 8 (omega arith) (omega arith) ∙ co.source;
  dest = br.others 9 (omega arith) ∙ st.others 9 (omega arith) (omega arith) ∙ co.dest;
  counted =
      same_narrow s2.registers s3.registers j word v2.registers v3.registers
        (br.others j (omega arith))
      ∙ st.stored
      ∙ omega arith;
  counter = br.counter ∙ ground (arith, st.counter, e);
  others = λ i hi n8 n9 ne. br.others i hi ∙ st.others i hi ne ∙ co.others i hi n8 n9;
}

pub round :
    (mem_size : ℕ) (j : RegisterType) (a b p k : ℕ) (s : CpuState)
    → IsValid mem_size s
    → Program j p s.memory
    → j < 8
    → mem_size ≤ 2 ^ 24
    → p + 6 ≤ 2 ^ 24
    → 1 ≤ k
    → k ≤ 2 ^ 16
    → a < mem_size
    → b < mem_size
    → (b < p) ⊎ (p + 6 ≤ b)
    → Registers.get s.registers reg_pc long ≡ p
    → Registers.get s.registers 8 long ≡ a
    → Registers.get s.registers 9 long ≡ b
    → Registers.get s.registers j word ≡ k % 2 ^ 16
    → (s' : CpuState) × ((c : ℕ) → steps (suc (suc (suc c))) s ≡ steps c s')
      × Round mem_size j a b p k s s'
round mem_size j a b p k s v l hj hm hp k1 k2 ha hb apart e ea eb d =
    let (s1, run1, co) = copy_step mem_size a b p s v l.copies e ea eb ha hb hm in
    let v1 = after_step mem_size s v run1 in
    let l1 : Program j p s1.memory =
      subst (λ m. Program j p m) (sym co.memory)
        (Program-update j p s.memory b (s.memory.base_addr a) l (omega arith) (v.memory a) hp
          apart) in
    let at1 : Registers.get s1.registers reg_pc long ≡ p + 2 =
      co.counter ∙ ap (λ x. (x + 2) % 2 ^ 32) e ∙ omega arith in
    let d1 : Registers.get s1.registers j word ≡ k % 2 ^ 16 =
      same_narrow s.registers s1.registers j word v.registers v1.registers
        (co.others j (omega arith) (omega arith) (omega arith))
      ∙ d in
    let (s2, run2, stores) = subq_at j (p + 2) s1 v1.registers l1.counts hj at1 in
    let st : Stores word j 1 (k % 2 ^ 16) (sub32 (k % 2 ^ 16) 1) s1 s2 =
      subst (λ x. Stores word j 1 x (sub32 x 1) s1 s2) d1 stores in
    let v2 = after_step mem_size s1 v1 run2 in
    let at2 : Registers.get s2.registers reg_pc long ≡ p + 4 =
      st.counter ∙ ap (λ x. (x + 2) % 2 ^ 32) at1 ∙ omega arith in
    let w2 = ap (λ m. Memory.get m (p + 4) word) st.memory ∙ l1.goes_back in
    let again : taken not_equal (past s2.registers) ≡ not (k == 1) =
      ap not (past-zero s2.registers ∙ st.flags.zero ∙ ground arith) in
    let target : add32 (add32 (p + 4) 2) (sext8 0xfa) ≡ p = omega arith in
    let s3 = branched (not (k == 1)) p (record s2 { registers = past s2.registers }) in
    let run3 : step s2 ≡ (ok tt, s3) =
      bne_at 0xfa back_word (p + 4) s2 back_entry w2 at2 ∙ rw (again, target) refl in
    (
      s3,
      three_steps s s1 s2 s3 run1 run2 run3,
      three_stored mem_size j a b p k s s1 s2 s3 hj hp k1 k2 v2 (after_step mem_size s2 v2 run3) l1
          at1 co st (branched_lem (not (k == 1)) p s2 v2.registers (omega arith)),
    )
