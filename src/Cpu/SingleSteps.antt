-- ===== src/Cpu/SingleSteps.antt =====
-- `step` of src/cpu.cpp at the two instructions of a counting loop, `subq.w #1, Dj` and `bne.s` back
-- to it.
use m68k_emu.Base.{
  ℕ, zero, suc, ◌+◌, ◌^◌, ◌≡◌, ◌<◌, ◌∙◌, arith, refl, ap, subst, none, u16, add32, sub32, sext8,
  Bool, true, false, if◌then◌else◌,
}
use m68k_emu.Defines.{RegisterType, word, long, byte, reg_pc, not_equal, flag_zero, ok}
use m68k_emu.Helpers.{is_memory_alterable}
use m68k_emu.Registers
use m68k_emu.Registers.{Registers}
use m68k_emu.Registers.Access
use m68k_emu.Registers.ReadBack.{set-same, set-other}
use m68k_emu.Memory
use m68k_emu.CpuState.{CpuState, ◌>>=◌}
use m68k_emu.CpuState.Validity.{IsValid}
use m68k_emu.Decoder.{entry, candidate}
use m68k_emu.Decoder.Table.{opcode_mask_table}
use m68k_emu.Instruction.{get_addressing_mode, get_register_type, get_condition}
use m68k_emu.Instruction.Class.{Bcc, subq, bcc}
use m68k_emu.Instruction.Common.{dest_operand, dest_operand_valid}
use m68k_emu.Instruction.RegisterForms.{past, Stores, past-IsValid, past_register, past_counter}
use m68k_emu.Instruction.RegisterForms.Quick.{quick, subq_register}
use m68k_emu.Instruction.Branches.{execute_short, branched, taken}
use m68k_emu.Instruction.Subq
use m68k_emu.Instruction.Bcc
use m68k_emu.Cpu.{execute, step, steps}
use m68k_emu.Cpu.Fetch.{step_lem, fetched, dispatched}
use m68k_emu.Cpu.Validity.{step-IsValid}

-- The words of the loop: `subq.w #1, Dj`, and `bne.s` to four bytes before its end.
abbrev pub subq_word : RegisterType → ℕ
subq_word j = 0x5340 + j

abbrev pub bne_word : ℕ
bne_word = 0x66fc

abbrev pub bne_fields : ℕ → Bcc
bne_fields displacement = record {
  condition = not_equal;
  displacement_8 = displacement;
  data_size = byte;
}

subq_entry :
    (j : RegisterType) → j < 8 → (entry (u16 (subq_word j)) none).class ≡ subq (quick word 1 j)
unfolding entry candidate Subq.create opcode_mask_table dest_operand_valid is_memory_alterable
    dest_operand get_addressing_mode get_register_type
subq_entry zero h = refl
subq_entry (suc zero) h = refl
subq_entry (suc (suc zero)) h = refl
subq_entry (suc (suc (suc zero))) h = refl
subq_entry (suc (suc (suc (suc zero)))) h = refl
subq_entry (suc (suc (suc (suc (suc zero))))) h = refl
subq_entry (suc (suc (suc (suc (suc (suc zero)))))) h = refl
subq_entry (suc (suc (suc (suc (suc (suc (suc zero))))))) h = refl
subq_entry (suc (suc (suc (suc (suc (suc (suc (suc j)))))))) h = absurd (omega (arith, h))

bne_entry : (entry (u16 bne_word) none).class ≡ bcc (bne_fields 0xfc)
unfolding entry candidate Bcc.create opcode_mask_table get_condition
bne_entry = refl

-- The loop at an address, in a well-formed state, with PC at some address.
pub record Loaded (mem_size : ℕ) (j : RegisterType) (p : ℕ) (s : CpuState) : Type 0 where
  pub valid : IsValid mem_size s
  pub first : Memory.get s.memory p word ≡ ok (subq_word j)
  pub second : Memory.get s.memory (add32 p 2) word ≡ ok bne_word

-- A step at a word whose instruction is known.
pub step_at :
    (s : CpuState) (opcode : ℕ)
    → fetched s ≡ ok opcode
    → step s ≡ execute (entry (u16 opcode) none).class s
step_at s opcode e = step_lem s ∙ ap (λ r. dispatched r s) e

pub subq_at :
    (j : RegisterType) (p : ℕ) (s : CpuState)
    → Access.IsValid s.registers
    → Memory.get s.memory p word ≡ ok (subq_word j)
    → j < 8
    → Registers.get s.registers reg_pc long ≡ p
    → (s' : CpuState) × (step s ≡ (ok tt, s'))
      × Stores word j 1
          (Registers.get s.registers j word)
          (sub32 (Registers.get s.registers j word) 1)
          s
          s'
unfolding execute
subq_at j p s v w hj e =
    let (s', run, stores) = subq_register word 1 j s v hj in
    (
      s',
      step_at s (subq_word j) (ap (λ k. Memory.get s.memory k word) e ∙ w)
          ∙ ap (λ c. execute c s) (subq_entry j hj)
          ∙ run,
      stores,
    )

pub subq_step :
    (mem_size : ℕ) (j : RegisterType) (p : ℕ) (s : CpuState)
    → Loaded mem_size j p s
    → j < 8
    → Registers.get s.registers reg_pc long ≡ p
    → (s' : CpuState) × (step s ≡ (ok tt, s'))
      × Stores word j 1
          (Registers.get s.registers j word)
          (sub32 (Registers.get s.registers j word) 1)
          s
          s'
subq_step mem_size j p s l hj e = subq_at j p s l.valid.registers l.first hj e

-- A step at `bne.s` with a displacement whose entry is known.
pub bne_at :
    (displacement opcode p : ℕ) (s : CpuState)
    → (entry (u16 opcode) none).class ≡ bcc (bne_fields displacement)
    → Memory.get s.memory p word ≡ ok opcode
    → Registers.get s.registers reg_pc long ≡ p
    → step s ≡ (
      ok tt,
      branched
          (taken not_equal (past s.registers))
          (add32 (add32 p 2) (sext8 displacement))
          (record s { registers = past s.registers }),
    )
unfolding execute
bne_at displacement opcode p s h w e =
    step_at s opcode (ap (λ k. Memory.get s.memory k word) e ∙ w)
    ∙ ap (λ c. execute c s) h
    ∙ execute_short (bne_fields displacement) s refl (λ q. cc q) (λ q. cc q)
    ∙ rw e refl

pub bne_step :
    (mem_size : ℕ) (j : RegisterType) (p : ℕ) (s : CpuState)
    → Loaded mem_size j p s
    → Registers.get s.registers reg_pc long ≡ add32 p 2
    → step s ≡ (
      ok tt,
      branched
          (taken not_equal (past s.registers))
          (add32 (add32 (add32 p 2) 2) (sext8 0xfc))
          (record s { registers = past s.registers }),
    )
bne_step mem_size j p s l e = bne_at 0xfc bne_word (add32 p 2) s bne_entry l.second e

pub past-zero :
    (r : Registers) → Registers.get_flag (past r) flag_zero ≡ Registers.get_flag r flag_zero
unfolding Registers.get_flag Registers.set Registers.physical
past-zero r = ground arith

-- What a branch leaves.
pub record Branched (b : Bool) (target : ℕ) (s s' : CpuState) : Type 0 where
  pub memory : s'.memory ≡ s.memory
  pub counter :
      Registers.get s'.registers reg_pc long
      ≡ (if b then target else add32 (Registers.get s.registers reg_pc long) 2)
  pub others :
      (k : RegisterType)
      → k < 15
      → Registers.get s'.registers k long ≡ Registers.get s.registers k long

pub branched_lem :
    (b : Bool) (target : ℕ) (s : CpuState)
    → Access.IsValid s.registers
    → target < 2 ^ 32
    → Branched b target s (branched b target (record s { registers = past s.registers }))
branched_lem true target s v h = record {
  memory = refl;
  counter =
      set-same (past s.registers) reg_pc long target (past-IsValid s.registers v) (omega arith)
      ∙ omega arith;
  others = λ k hk.
      set-other (past s.registers) reg_pc k long target (past-IsValid s.registers v) (omega arith)
        (omega arith) (omega arith) (omega arith)
      ∙ past_register s.registers k long v hk;
}
branched_lem false target s v h = record {
  memory = refl;
  counter = past_counter s.registers v;
  others = λ k hk. past_register s.registers k long v hk;
}

pub after_step :
    (mem_size : ℕ) (s : CpuState) {s' : CpuState}
    → IsValid mem_size s
    → step s ≡ (ok tt, s')
    → IsValid mem_size s'
after_step mem_size s v run = subst (λ q. IsValid mem_size q.1) run (step-IsValid.at s v)

pub two_steps :
    (s s1 s2 : CpuState)
    → step s ≡ (ok tt, s1)
    → step s1 ≡ (ok tt, s2)
    → (c : ℕ) → steps (suc (suc c)) s ≡ steps c s2
unfolding steps ◌>>=◌
two_steps s s1 s2 run1 run2 c = rw run1 (rw run2 refl)
