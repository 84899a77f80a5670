-- ===== src/CpuState/Stack.antt =====
-- The stack of src/cpu_state.cpp.
use m68k_emu.Base.{ℕ, ◌≡◌, ◌≢◌, ◌%◌, ◌^◌, arith, add32, sub32, ◌==◌, if◌then◌else◌}
use m68k_emu.Defines.{DataSize, byte, word, long, bytes, RegisterType, reg_usp, reg_sr, ok}
use m68k_emu.Helpers.Flags.{range}
use m68k_emu.Registers
use m68k_emu.Registers.{Registers}
use m68k_emu.Registers.Access
use m68k_emu.Memory
use m68k_emu.Memory.Errors.{Aligned, Fits}
use m68k_emu.Memory.Access.{written, set_ok, get-written_self}
use m68k_emu.CpuState.{CpuState, stack_push, stack_pop, ◌>>=◌, ◌>>◌}
use m68k_emu.CpuState.Validity.{IsValid}

-- The stack pointer: A7, or the supervisor's while the supervisor bit is set.
abbrev pub sp : CpuState → ℕ
sp s = Registers.get s.registers reg_usp long

-- Where a push of a size stores.
abbrev pub top : DataSize → CpuState → ℕ
top size s = sub32 (sp s) (bytes size)

abbrev pub pushed : DataSize → ℕ → CpuState → CpuState
pushed size value s = record {
  memory = written s.memory (top size s) size value;
  registers = Registers.set s.registers reg_usp long (top size s);
}

pub stack_push_ok :
    (size : DataSize) (value : ℕ) (s : CpuState)
    → Aligned (top size s) size
    → Fits s.memory.mem_size (top size s) size
    → stack_push size value s ≡ (ok tt, pushed size value s)
unfolding stack_push ◌>>=◌
stack_push_ok size value s a f = ground (arith, set_ok s.memory (top size s) size value a f)

pub stack_pop_ok :
    (size : DataSize) (s : CpuState) {value : ℕ}
    → Memory.get s.memory (sp s) size ≡ ok value
    → stack_pop size s ≡ (
      ok value,
      record s { registers = Registers.set s.registers reg_usp long (add32 (sp s) (bytes size)) },
    )
unfolding stack_pop ◌>>=◌
stack_pop_ok size s h = ground arith

-- A write of a whole register, as a read sees it.
pub set_read :
    (r : Registers) (i j : RegisterType) (x : ℕ)
    → Access.IsValid r
    → i ≢ reg_sr
    → Registers.get (Registers.set r i long x) j long ≡ (
        if Registers.physical r i == Registers.physical r j
        then x % 2 ^ 32
        else Registers.get r j long)
set_read r i j x v ne = ground (arith, Access.get-set r i j long x v ne, Access.get-lt r j long v)

-- The stack pointer moved down and up again: every register reads as at first.
moved_back :
    (r : Registers) (down up : ℕ) (j : RegisterType)
    → Access.IsValid r
    → up % 2 ^ 32 ≡ Registers.get r reg_usp long
    → Registers.get (Registers.set (Registers.set r reg_usp long down) reg_usp long up) j long
      ≡ Registers.get r j long
moved_back r down up j v e =
    let v' = Access.set-IsValid r reg_usp long down v in
    ground (
      arith,
      set_read (Registers.set r reg_usp long down) reg_usp j up v',
      set_read r reg_usp j down v,
      Access.physical-set r reg_usp reg_usp long down,
      Access.physical-set r reg_usp j long down,
      Access.same_entry r reg_usp j,
    )

abbrev pub popped : DataSize → CpuState → CpuState
popped size s = record s {
  registers = Registers.set s.registers reg_usp long (add32 (sp s) (bytes size));
}

pub sp-pushed :
    {n : ℕ} (size : DataSize) (value : ℕ) (s : CpuState)
    → IsValid n s
    → sp (pushed size value s) ≡ top size s
sp-pushed size value s v =
    ground (arith, set_read s.registers reg_usp reg_usp (top size s) v.registers)

pop_pushed :
    {n : ℕ} (size : DataSize) (value : ℕ) (s : CpuState)
    → IsValid n s
    → Aligned (top size s) size
    → Fits s.memory.mem_size (top size s) size
    → stack_pop size (pushed size value s)
      ≡ (ok (value % range size), popped size (pushed size value s))
pop_pushed size value s v a f =
    stack_pop_ok size (pushed size value s) (
      rw (sp-pushed size value s v)
        (get-written_self s.memory (top size s) size value v.memory a f))

pub back_up :
    {n : ℕ} (size : DataSize) (value : ℕ) (s : CpuState)
    → IsValid n s
    → add32 (sp (pushed size value s)) (bytes size) % 2 ^ 32 ≡ sp s
back_up byte value s v =
    rw (sp-pushed byte value s v)
      (omega (arith, Access.get-lt s.registers reg_usp long v.registers))
back_up word value s v =
    rw (sp-pushed word value s v)
      (omega (arith, Access.get-lt s.registers reg_usp long v.registers))
back_up long value s v =
    rw (sp-pushed long value s v)
      (omega (arith, Access.get-lt s.registers reg_usp long v.registers))

-- In a well-formed state whose stack has room at an even place, a push succeeds, and a pop of the
-- same size right after it gives the value back as far as the size holds it, with every register
-- as before the push.
pub pop-push :
    {n : ℕ} (size : DataSize) (value : ℕ) (s : CpuState)
    → IsValid n s
    → Aligned (top size s) size
    → Fits s.memory.mem_size (top size s) size
    → (s' : CpuState) × ((stack_push size value >> stack_pop size) s
        ≡ (ok (value % range size), s'))
      × ((j : RegisterType) → Registers.get s'.registers j long ≡ Registers.get s.registers j long)
unfolding ◌>>=◌
pop-push size value s v a f = (
  popped size (pushed size value s),
  rw (stack_push_ok size value s a f) (pop_pushed size value s v a f),
  λ j.
      moved_back s.registers (top size s) (add32 (sp (pushed size value s)) (bytes size)) j
        v.registers (back_up size value s v),
)
