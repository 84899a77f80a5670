-- ===== src/Instruction/Subroutine.antt =====
-- A call and its return: src/instructions/jsr.cpp and rts.cpp.
use m68k_emu.Base.{ℕ, ◌≡◌, ◌%◌, ◌^◌, arith, refl, add32}
use m68k_emu.Defines.{long, bytes, RegisterType, reg_pc, reg_usp, ok}
use m68k_emu.Registers
use m68k_emu.Registers.{Registers}
use m68k_emu.Registers.Access
use m68k_emu.Memory.Errors.{Aligned, Fits}
use m68k_emu.Memory.Access.{get-written_self}
use m68k_emu.CpuState.{CpuState, Action, ◌>>=◌, ◌>>◌}
use m68k_emu.CpuState.Operands.{get_control_address}
use m68k_emu.CpuState.Stack.{
  sp, top, pushed, popped, set_read, sp-pushed, stack_push_ok, stack_pop_ok,
}
use m68k_emu.CpuState.Validity.{IsValid}
use m68k_emu.Instruction.Class.{Dest}
use m68k_emu.Instruction.Common.{advance}
use m68k_emu.Instruction.Jsr
use m68k_emu.Instruction.Rts

-- Where a call goes: PC past the opcode and the words of the operand.
unfoldable pub target : Dest → Action ℕ
target f = advance >> get_control_address f.dest_mode f.dest_reg f.data_size

-- PC moved away and back around a push and a pop.
restored :
    (r : Registers) (down dest up : ℕ) (j : RegisterType)
    → Access.IsValid r
    → up % 2 ^ 32 ≡ Registers.get r reg_usp long
    → Registers.get
        (Registers.set
          (Registers.set
            (Registers.set (Registers.set r reg_usp long down) reg_pc long dest)
            reg_usp
            long
            up)
          reg_pc
          long
          (Registers.get r reg_pc long % 2 ^ 32))
        j
        long
      ≡ Registers.get r j long
restored r down dest up j v e =
    let r1 = Registers.set r reg_usp long down in
    let v1 = Access.set-IsValid r reg_usp long down v in
    let r2 = Registers.set r1 reg_pc long dest in
    let v2 = Access.set-IsValid r1 reg_pc long dest v1 in
    let r3 = Registers.set r2 reg_usp long up in
    let v3 = Access.set-IsValid r2 reg_usp long up v2 in
    rw
      (
        set_read r3 reg_pc j (Registers.get r reg_pc long % 2 ^ 32) v3 (omega arith),
        Access.physical-set r2 reg_usp reg_pc long up (omega arith),
        Access.physical-set r2 reg_usp j long up (omega arith),
        Access.physical-set r1 reg_pc reg_pc long dest (omega arith),
        Access.physical-set r1 reg_pc j long dest (omega arith),
        Access.physical-set r reg_usp reg_pc long down (omega arith),
        Access.physical-set r reg_usp j long down (omega arith),
      )
      (ground (
        arith,
        set_read r2 reg_usp j up v2,
        set_read r1 reg_pc j dest v1,
        set_read r reg_usp j down v,
        Access.physical-set r1 reg_pc reg_usp long dest,
        Access.physical-set r1 reg_pc j long dest,
        Access.physical-set r reg_usp reg_usp long down,
        Access.physical-set r reg_usp j long down,
        Access.physical-set r reg_usp reg_pc long down,
        Access.same_entry r reg_usp j,
        Access.same_entry r reg_pc j,
        Access.get-lt r reg_pc long v,
      ))

called : ℕ → CpuState → CpuState
called dest s =
    let s2 = pushed long (Registers.get s.registers reg_pc long) s in
    record s2 { registers = Registers.set s2.registers reg_pc long dest }

sp-called : {n : ℕ} (dest : ℕ) (s : CpuState) → IsValid n s → sp (called dest s) ≡ top long s
unfolding called Registers.physical
sp-called dest s v =
    let p = Registers.get s.registers reg_pc long in
    let kept = Access.set-IsValid s.registers reg_usp long (top long s) v.registers in
    ground
      (arith, set_read (pushed long p s).registers reg_pc reg_usp dest kept, sp-pushed long p s v)

jsr_run :
    (f : Dest) (s s1 : CpuState) (dest : ℕ)
    → target f s ≡ (ok dest, s1)
    → Aligned (top long s1) long
    → Fits s1.memory.mem_size (top long s1) long
    → Jsr.execute f s ≡ (ok tt, called dest s1)
unfolding Jsr.execute target called ◌>>=◌
jsr_run f s s1 dest e a fits =
    ground (arith, e, stack_push_ok long (Registers.get s1.registers reg_pc long) s1 a fits)

abbrev returned : ℕ → CpuState → CpuState
returned dest s =
    let s3 = popped long (called dest s) in
    record s3 {
      registers =
          Registers.set s3.registers reg_pc long (Registers.get s.registers reg_pc long % 2 ^ 32);
    }

rts_run :
    {n : ℕ} (dest : ℕ) (s : CpuState)
    → IsValid n s
    → Aligned (top long s) long
    → Fits s.memory.mem_size (top long s) long
    → Rts.execute (called dest s) ≡ (ok tt, returned dest s)
unfolding Rts.execute called ◌>>=◌
rts_run dest s v a fits =
    let p = Registers.get s.registers reg_pc long in
    rw
      (stack_pop_ok long (called dest s) {value = p % 2 ^ 32}
        (rw (sp-called dest s v) (get-written_self s.memory (top long s) long p v.memory a fits)))
      refl

returned-get :
    {n : ℕ} (dest : ℕ) (s : CpuState) (j : RegisterType)
    → IsValid n s
    → Registers.get (returned dest s).registers j long ≡ Registers.get s.registers j long
unfolding called
returned-get dest s j v =
    restored s.registers (top long s) dest (add32 (sp (called dest s)) (bytes long)) j v.registers
      (rw (sp-called dest s v) (omega (arith, Access.get-lt s.registers reg_usp long v.registers)))

-- When the target of a call is found, in a well-formed state with room for a long word at an even
-- place on the stack, a JSR returns, and an RTS right after it returns too: each register then
-- reads as it did when the target was found, PC included, so the program goes on after the call.
pub rts-jsr :
    {n : ℕ} (f : Dest) (s s1 : CpuState) (dest : ℕ)
    → target f s ≡ (ok dest, s1)
    → IsValid n s1
    → Aligned (top long s1) long
    → Fits s1.memory.mem_size (top long s1) long
    → (s' : CpuState) × ((Jsr.execute f >> Rts.execute) s ≡ (ok tt, s'))
      × ((j : RegisterType) → Registers.get s'.registers j long ≡ Registers.get s1.registers j long)
unfolding ◌>>=◌
rts-jsr f s s1 dest e v a fits = (
  returned dest s1,
  rw (jsr_run f s s1 dest e a fits) (rts_run dest s1 v a fits),
  λ j. returned-get dest s1 j v,
)
