-- ===== src/Cpu/CopyLoop.antt =====
-- A loop that copies bytes, run by `steps` of src/cpu.cpp: a whole program through fetch, decoder,
-- addressing modes, memory and flags.
use m68k_emu.Base.{
  ℕ, zero, suc, ◌+◌, ◌-◌, ◌*◌, ◌%◌, ◌^◌, ◌≡◌, ◌≢◌, ◌≤◌, ◌<◌, ◌⊎◌, ◌∙◌, arith, refl, ap, subst,
  update, leb, ltb, ◌&&◌, if◌then◌else◌,
}
use m68k_emu.Defines.{RegisterType, word, long, reg_pc, ok}
use m68k_emu.Registers
use m68k_emu.CpuState.{CpuState, ◌>>=◌}
use m68k_emu.CpuState.Validity.{IsValid}
use m68k_emu.Cpu.{steps}
use m68k_emu.Cpu.CopyRound.{Program, round}

-- The bytes with `n` of them copied from `a` on to `b` on.
abbrev pub copied : (ℕ → ℕ) → (a b n : ℕ) → ℕ → ℕ
copied mem a b n x = if leb b x && ltb x (b + n) then mem (a + (x - b)) else mem x

-- The destination does not begin inside the source behind its first byte.
abbrev pub Forward : (a b n : ℕ) → Type 0
Forward a b n = (b ≤ a) ⊎ (a + n ≤ b)

-- The first byte and then the others.
copied-suc :
    (mem : ℕ → ℕ) (a b n x : ℕ)
    → Forward a b (suc n)
    → copied (update mem b (mem a)) (a + 1) (b + 1) n x ≡ copied mem a b (suc n) x
copied-suc mem a b n x h =
    let shifted : b + 1 ≤ x → mem (a + 1 + (x - (b + 1))) ≡ mem (a + (x - b)) =
      λ le. ap mem (omega arith) in
    let first : b ≡ x → mem a ≡ mem (a + (x - b)) = λ e. ap mem (omega arith) in
    ground (arith, shifted, first)

copied_one : (mem : ℕ → ℕ) (a b x : ℕ) → update mem b (mem a) x ≡ copied mem a b 1 x
copied_one mem a b x =
    let first : b ≡ x → mem a ≡ mem (a + (x - b)) = λ e. ap mem (omega arith) in
    ground (arith, first)

-- What the loop leaves after copying `n` bytes.
pub record Copied (j : RegisterType) (a b p n : ℕ) (s s' : CpuState) : Type 0 where
  pub bytes : (x : ℕ) → s'.memory.base_addr x ≡ copied s.memory.base_addr a b n x
  pub source : Registers.get s'.registers 8 long ≡ a + n
  pub dest : Registers.get s'.registers 9 long ≡ b + n
  pub counted : Registers.get s'.registers j word ≡ 0
  pub counter : Registers.get s'.registers reg_pc long ≡ p + 6
  pub others :
      (i : RegisterType)
      → i < 15
      → i ≢ 8
      → i ≢ 9
      → j ≢ i
      → Registers.get s'.registers i long ≡ Registers.get s.registers i long

tripled :
    (s s1 : CpuState) (k : ℕ)
    → ((c : ℕ) → steps (suc (suc (suc c))) s ≡ steps c s1)
    → steps (3 * suc k) s ≡ steps (3 * k) s1
tripled s s1 k run = subst (λ c. steps c s ≡ steps (3 * k) s1) (omega arith) (run (3 * k))

stop : (s : CpuState) → steps 0 s ≡ (ok tt, s)
unfolding steps ◌>>=◌
stop s = refl

-- A well-formed state whose memory holds `move.b (A0)+, (A1)+`, `subq.w #1, Dj` and `bne.s -6` at PC
-- leaves this loop after three steps for each unit of the counter, the low word of Dj, where 0 stands
-- for 65536. If both runs of bytes lie in the memory, the destination lies beside the loop and does not
-- begin inside the source behind its first byte, the memory then holds the source's bytes at the
-- destination and is elsewhere as before, A0 and A1 are past the runs, the low word of Dj is 0, PC is
-- past the loop, and the other data and address registers below A7 are as before.
pub steps_copy :
    (mem_size : ℕ) (j : RegisterType) (a b p k : ℕ) (s : CpuState)
    → IsValid mem_size s
    → Program j p s.memory
    → j < 8
    → mem_size ≤ 2 ^ 24
    → p + 6 ≤ 2 ^ 24
    → k < 2 ^ 16
    → a + suc k ≤ mem_size
    → b + suc k ≤ mem_size
    → Forward a b (suc k)
    → (b + suc k ≤ p) ⊎ (p + 6 ≤ b)
    → Registers.get s.registers reg_pc long ≡ p
    → Registers.get s.registers 8 long ≡ a
    → Registers.get s.registers 9 long ≡ b
    → Registers.get s.registers j word ≡ suc k % 2 ^ 16
    → (s' : CpuState) × (steps (3 * suc k) s ≡ (ok tt, s')) × Copied j a b p (suc k) s s'
steps_copy mem_size j a b p zero s v l hj hm hp hk ha hb fw apart e ea eb d =
    let (s1, run, r) =
      round mem_size j a b p 1 s v l hj hm hp (omega arith) (omega arith) (omega arith)
        (omega arith) (ground arith) e ea eb d in
    (
      s1,
      tripled s s1 zero run ∙ stop s1,
      record {
        bytes = λ x. ap (λ m. m.base_addr x) r.memory ∙ copied_one s.memory.base_addr a b x;
        source = r.source;
        dest = r.dest;
        counted = r.counted;
        counter = r.counter;
        others = r.others;
      },
    )
steps_copy mem_size j a b p (suc k) s v l hj hm hp hk ha hb fw apart e ea eb d =
    let (s1, run, r) =
      round mem_size j a b p (suc (suc k)) s v l hj hm hp (omega arith) (omega arith) (omega arith)
        (omega arith) (ground arith) e ea eb d in
    let (s', run', c) =
      steps_copy mem_size j (a + 1) (b + 1) p k s1 r.valid r.program hj hm hp (omega arith)
        (omega arith) (omega arith) (ground arith) (ground arith) (r.counter ∙ ground arith)
        r.source r.dest (r.counted ∙ omega arith) in
    (
      s',
      tripled s s1 (suc k) run ∙ run',
      record {
        bytes = λ x.
            c.bytes x
            ∙ ap (λ m. copied m.base_addr (a + 1) (b + 1) (suc k) x) r.memory
            ∙ copied-suc s.memory.base_addr a b (suc k) x fw;
        source = c.source ∙ omega arith;
        dest = c.dest ∙ omega arith;
        counted = c.counted;
        counter = c.counter;
        others = λ i hi n8 n9 ne. c.others i hi n8 n9 ne ∙ r.others i hi n8 n9 ne;
      },
    )
