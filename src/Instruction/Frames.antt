-- ===== src/Instruction/Frames.antt =====
-- A stack frame and its removal: src/instructions/link.cpp and unlk.cpp.
use m68k_emu.Base.{
  Bool-cases, inl, inr, ℕ, ◌≡◌, ◌≢◌, ◌∙◌, ◌%◌, ◌^◌, ◌<◌, arith, refl, ap, ◌==◌, if◌then◌else◌,
  add32, sext16,
}
use m68k_emu.Defines.{long, word, bytes, RegisterType, reg_pc, reg_usp, ok}
use m68k_emu.Registers
use m68k_emu.Registers.{Registers}
use m68k_emu.Registers.Access
use m68k_emu.Memory
use m68k_emu.Memory.Errors.{Aligned, Fits}
use m68k_emu.Memory.Access.{get-written_self}
use m68k_emu.CpuState.{CpuState, ◌>>=◌, ◌>>◌}
use m68k_emu.CpuState.Stack.{
  sp, top, pushed, popped, set_read, sp-pushed, stack_push_ok, stack_pop_ok,
}
use m68k_emu.CpuState.Validity.{IsValid}
use m68k_emu.Instruction.Common.{advance}
use m68k_emu.Instruction.Link
use m68k_emu.Instruction.Unlk

-- The registers past the opcode of LINK and its displacement.
abbrev pub entered : CpuState → CpuState
entered s = record s {
  registers =
      Registers.set s.registers reg_pc long
        (add32 (add32 (Registers.get s.registers reg_pc long) (bytes word)) (bytes word));
}

-- The state with the frame of the register `a` set up.
abbrev framed : RegisterType → ℕ → CpuState → CpuState
framed a displacement s =
    let s2 = pushed long (Registers.get s.registers a long) s in
    let r3 = Registers.set s2.registers a long (sp s2) in
    record s2 { registers = Registers.set r3 reg_usp long (add32 (sp s2) (sext16 displacement)) }

link_run :
    (a : RegisterType) (displacement : ℕ) (s : CpuState)
    → Memory.get s.memory (add32 (Registers.get s.registers reg_pc long) (bytes word)) word
      ≡ ok displacement
    → Aligned (top long (entered s)) long
    → Fits s.memory.mem_size (top long (entered s)) long
    → Link.execute a s ≡ (ok tt, framed a displacement (entered s))
unfolding Link.execute ◌>>=◌
link_run a displacement s e al f =
    ground
      (arith, e, stack_push_ok long (Registers.get (entered s).registers a long) (entered s) al f)

module _ (r : Registers) (a : RegisterType) (v : Access.IsValid r) (lt : a < 15) where
  -- A write of a whole register other than A7 and the status register, as a read of it or of
  -- another register sees it.
  write-a :
      (x : ℕ) (j : RegisterType)
      → Registers.get (Registers.set r a long x) j long
        ≡ (if a == Registers.physical r j then x % 2 ^ 32 else Registers.get r j long)
  unfolding Registers.physical
  write-a x j = ground (arith, set_read r a j x v)

  write-sp :
      (x : ℕ) (j : RegisterType)
      → j < 15
      → Registers.get (Registers.set r reg_usp long x) j long ≡ Registers.get r j long
  unfolding Registers.physical
  write-sp x j h = ground (arith, set_read r reg_usp j x v)

  write-sp-sp : (x : ℕ) → Registers.get (Registers.set r reg_usp long x) reg_usp long ≡ x % 2 ^ 32
  write-sp-sp x = ground (arith, set_read r reg_usp reg_usp x v)

  write-a-sp :
      (x : ℕ) → Registers.get (Registers.set r a long x) reg_usp long ≡ Registers.get r reg_usp long
  unfolding Registers.physical
  write-a-sp x = ground (arith, set_read r a reg_usp x v)

  write-a-a : (x : ℕ) → Registers.get (Registers.set r a long x) a long ≡ x % 2 ^ 32
  write-a-a x = ground (arith, set_read r a a x v)

write-pc :
    (r : Registers) (x : ℕ) (j : RegisterType)
    → Access.IsValid r
    → j ≢ reg_pc
    → Registers.get (Registers.set r reg_pc long x) j long ≡ Registers.get r j long
unfolding Registers.physical
write-pc r x j v ne = ground (arith, set_read r reg_pc j x v)

-- The state with PC past the opcode of UNLK and the stack pointer at the frame of `a`.
abbrev removed_to : RegisterType → CpuState → CpuState
removed_to a s =
    let r =
      Registers.set s.registers reg_pc long
        (add32 (Registers.get s.registers reg_pc long) (bytes word)) in
    record s { registers = Registers.set r reg_usp long (Registers.get r a long) }

unlk_run :
    (a : RegisterType) (s : CpuState) (value : ℕ)
    → Memory.get s.memory (sp (removed_to a s)) long ≡ ok value
    → Unlk.execute a s ≡ (
      ok tt,
      record s { registers = Registers.set (popped long (removed_to a s)).registers a long value },
    )
unfolding Unlk.execute advance ◌>>=◌
unlk_run a s value e = rw (stack_pop_ok long (removed_to a s) {value = value} e) refl

write-a-other :
    (r : Registers) (a j : RegisterType) (x : ℕ)
    → Access.IsValid r
    → a < 15
    → j < 15
    → a ≢ j
    → Registers.get (Registers.set r a long x) j long ≡ Registers.get r j long
unfolding Registers.physical
write-a-other r a j x v ha hj ne = ground (arith, write-a r a v ha x j)

-- A frame set up in `s` and removed again.
module _ {n : ℕ} (a : RegisterType) (d : ℕ) (s : CpuState) (v : IsValid n s) (lt : a < 15) where
  abbrev value : ℕ
  value = Registers.get s.registers a long

  abbrev r1 : Registers
  r1 = Registers.set s.registers reg_usp long (top long s)

  abbrev r2 : Registers
  r2 = Registers.set r1 a long (Registers.get r1 reg_usp long)

  abbrev r3 : Registers
  r3 = (framed a d s).registers

  abbrev r4 : Registers
  r4 = Registers.set r3 reg_pc long (add32 (Registers.get r3 reg_pc long) (bytes word))

  abbrev r5 : Registers
  r5 = (removed_to a (framed a d s)).registers

  abbrev r6 : Registers
  r6 = (popped long (removed_to a (framed a d s))).registers

  v1 : Access.IsValid r1
  v1 = Access.set-IsValid s.registers reg_usp long _ v.registers

  v2 : Access.IsValid r2
  v2 = Access.set-IsValid r1 a long _ v1

  v3 : Access.IsValid r3
  v3 = Access.set-IsValid r2 reg_usp long _ v2

  v4 : Access.IsValid r4
  v4 = Access.set-IsValid r3 reg_pc long _ v3

  v5 : Access.IsValid r5
  v5 = Access.set-IsValid r4 reg_usp long _ v4

  v6 : Access.IsValid r6
  v6 = Access.set-IsValid r5 reg_usp long _ v5

  base : Registers.get r4 a long ≡ top long s
  base =
      write-pc r3 _ a v3 (omega arith)
      ∙ write-sp r2 a v2 lt _ a lt
      ∙ write-a-a r1 a v1 lt _
      ∙ ap (λ x. x % 2 ^ 32) (sp-pushed long value s v)
      ∙ omega arith

  sp-removed : sp (removed_to a (framed a d s)) ≡ top long s
  sp-removed = write-sp-sp r4 a v4 lt _ ∙ ap (λ x. x % 2 ^ 32) base ∙ omega arith

  other :
      (j : RegisterType) (x : ℕ)
      → j < 15
      → a ≢ j
      → Registers.get (Registers.set r6 a long x) j long ≡ Registers.get s.registers j long
  other j x hj ne =
      write-a-other r6 a j x v6 lt hj ne
      ∙ write-sp r5 a v5 lt _ j hj
      ∙ write-sp r4 a v4 lt _ j hj
      ∙ write-pc r3 _ j v3 (omega arith)
      ∙ write-sp r2 a v2 lt _ j hj
      ∙ write-a-other r1 a j _ v1 lt hj ne
      ∙ write-sp s.registers a v.registers lt _ j hj

  own :
      Registers.get (Registers.set r6 a long (value % 2 ^ 32)) a long
      ≡ Registers.get s.registers a long
  own = write-a-a r6 a v6 lt _ ∙ omega (arith, Access.get-lt s.registers a long v.registers)

  stack :
      (x : ℕ)
      → Registers.get (Registers.set r6 a long x) reg_usp long
        ≡ Registers.get s.registers reg_usp long
  stack x =
      write-a-sp r6 a v6 lt x
      ∙ write-sp-sp r5 a v5 lt _
      ∙ rw sp-removed (omega (arith, Access.get-lt s.registers reg_usp long v.registers))

  all_back :
      (j : RegisterType)
      → j < 16
      → Registers.get (Registers.set r6 a long (value % 2 ^ 32)) j long
        ≡ Registers.get s.registers j long
  all_back j h = elim (Bool-cases (j == a)) [
    | inl is_a ↦ (let e : j ≡ a = ground arith in rw e own)
    | inr not_a ↦ elim (Bool-cases (j == 15)) [
      | inl is_sp ↦ (let e : j ≡ 15 = ground arith in rw e (stack (value % 2 ^ 32)))
      | inr not_sp ↦ other j (value % 2 ^ 32) (ground arith) (ground arith)
    ]
  ]

entered-IsValid : {n : ℕ} (s : CpuState) → IsValid n s → IsValid n (entered s)
entered-IsValid s v = record {
  registers = Access.set-IsValid s.registers reg_pc long _ v.registers;
  memory = v.memory;
  size = v.size;
}

-- In a well-formed state whose stack has room for a long word at an even place, and whose memory
-- gives the displacement word, a LINK on one of A0 to A6 returns, whatever the displacement, and an
-- UNLK on the same register right after it returns too, with every data and address register as
-- before the LINK.
pub unlk-link :
    {n : ℕ} (a : RegisterType) (displacement : ℕ) (s : CpuState)
    → IsValid n s
    → a < 15
    → Memory.get s.memory (add32 (Registers.get s.registers reg_pc long) (bytes word)) word
      ≡ ok displacement
    → Aligned (top long (entered s)) long
    → Fits s.memory.mem_size (top long (entered s)) long
    → (s' : CpuState) × ((Link.execute a >> Unlk.execute a) s ≡ (ok tt, s'))
      × ((j : RegisterType)
          → j < 16
          → Registers.get s'.registers j long ≡ Registers.get s.registers j long)
unfolding ◌>>=◌
unlk-link a displacement s v lt e al f =
    let s1 = entered s in
    let v1 = entered-IsValid s v in
    let value = Registers.get s1.registers a long in
    (
      record s1 {
        memory = (pushed long value s1).memory;
        registers =
            Registers.set (popped long (removed_to a (framed a displacement s1))).registers a long
              (value % 2 ^ 32);
      },
      rw (link_run a displacement s e al f) (
          unlk_run a (framed a displacement s1) (value % 2 ^ 32) (
            rw (sp-removed a displacement s1 v1 lt)
              (get-written_self s.memory (top long s1) long value v.memory al f))),
      λ j h.
          all_back a displacement s1 v1 lt j h ∙ write-pc s.registers _ j v.registers (omega arith),
    )
