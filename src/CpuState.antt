-- ===== src/CpuState.antt =====
-- include/cpu_state.hpp and src/cpu_state.cpp: the registers and the memory that an instruction
-- works on, the stack, and the conditions. Operands are in `CpuState/Operands`.
-- A method is an action: it returns or throws, and what it stored before a throw stays stored.
pub mod Operands
pub mod Silent
pub mod Store
pub mod Keeps
pub mod Validity
pub mod Frame
pub mod Sealed
pub mod Agreement
pub mod Stack
pub mod Conditions
pub mod Alike
pub mod DebugPrint
pub mod Atomic
pub mod Definedness
use m68k_emu.Base.{ℕ, ⊤, Bool, true, false, not, ◌&&◌, ◌||◌, add32, sub32, Option, none, some}
use m68k_emu.Defines.{
  DataSize, long, bytes, RegisterType, reg_usp, StatusRegisterFlag, flag_carry, flag_zero,
  flag_negative, flag_overflow, Result, ok, err, Error, Condition, cond_true, cond_false, higher,
  lower_same, carry_clear, carry_set, not_equal, equal, overflow_clear, overflow_set, plus, minus,
  greater_equal, less_than, greater_than, less_equal,
}
use m68k_emu.Registers
use m68k_emu.Registers.{Registers}
use m68k_emu.Memory
use m68k_emu.Memory.{BaseMemory}

pub record CpuState : Type 0 where
  pub memory : BaseMemory
  pub registers : Registers

-- `CPUState::CPUState` on a memory, with `Registers()`: every register is 0.
unfoldable pub initial : BaseMemory → CpuState
initial memory = record { memory = memory; registers = record { reg_buffer = λ i. 0 } }

abbrev pub Action : Type 0 → Type 0
Action A = CpuState → Result A × CpuState

unfoldable pub pure : {A : Type 0} → A → Action A
pure a s = (ok a, s)

unfoldable pub throw : {A : Type 0} → Error → Action A
throw e s = (err e, s)

-- A value that the language may refuse to give.
unfoldable pub lift : {A : Type 0} → Result A → Action A
lift r s = (r, s)

abbrev pub continue : {A B : Type 0} → Result A → (A → Action B) → Action B
continue (ok a) f s = f a s
continue (err e) f s = (err e, s)

-- `this->registers.get(reg, size)` and its kin, as actions on the state.
unfoldable pub get_register : RegisterType → DataSize → Action ℕ
get_register reg size s = (ok (Registers.get s.registers reg size), s)

unfoldable pub set_register : RegisterType → DataSize → ℕ → Action ⊤
set_register reg size value s =
    (ok tt, record s { registers = Registers.set s.registers reg size value })

unfoldable pub get_flag : StatusRegisterFlag → Action Bool
get_flag flag s = (ok (Registers.get_flag s.registers flag), s)

unfoldable pub set_flag : StatusRegisterFlag → Bool → Action ⊤
set_flag flag value s = (ok tt, record s { registers = Registers.set_flag s.registers flag value })

unfoldable pub get_memory : ℕ → DataSize → Action ℕ
get_memory address size s = (Memory.get s.memory address size, s)

abbrev replaced : Result BaseMemory → CpuState → Result ⊤ × CpuState
replaced (ok memory) s = (ok tt, record s { memory = memory })
replaced (err e) s = (err e, s)

unfoldable pub set_memory : ℕ → DataSize → ℕ → Action ⊤
set_memory address size value s = replaced (Memory.set s.memory address size value) s

infixl 10 ◌>>=◌ ◌>>◌
-- To open this is to open the actions above.
unfoldable pub ◌>>=◌ : {A B : Type 0} → Action A → (A → Action B) → Action B
unfolding pure throw lift get_register set_register get_flag set_flag get_memory set_memory
◌>>=◌ m f s = let (r, s') = m s in continue r f s'

abbrev pub ◌>>◌ : {A B : Type 0} → Action A → Action B → Action B
m >> k = m >>= λ _. k

unfoldable pub stack_pop : DataSize → Action ℕ
stack_pop size = do
  stack_ptr ← get_register reg_usp long
  popped ← get_memory stack_ptr size
  set_register reg_usp long (add32 stack_ptr (bytes size))
  pure popped

unfoldable pub stack_push : DataSize → ℕ → Action ⊤
stack_push size value = do
  old ← get_register reg_usp long
  let stack_ptr = sub32 old (bytes size)
  set_register reg_usp long stack_ptr
  set_memory stack_ptr size value

-- The switch of `checkCondition`, on the flags that it reads first.
abbrev pub holds : Condition → (n z v c : Bool) → Bool
holds cond_true n z v c = true
holds cond_false n z v c = false
holds higher n z v c = not c && not z
holds lower_same n z v c = c || z
holds carry_clear n z v c = not c
holds carry_set n z v c = c
holds not_equal n z v c = not z
holds equal n z v c = z
holds overflow_clear n z v c = not v
holds overflow_set n z v c = v
holds plus n z v c = not n
holds minus n z v c = n
holds greater_equal n z v c = (n && v) || (not n && not v)
holds less_than n z v c = (n && not v) || (not n && v)
holds greater_than n z v c = (n && v && not z) || (not n && not v && not z)
holds less_equal n z v c = (n && not v) || ((not n && v) || z)

unfoldable pub check_condition : Condition → Action Bool
check_condition cond = do
  flag_n ← get_flag flag_negative
  flag_z ← get_flag flag_zero
  flag_v ← get_flag flag_overflow
  flag_c ← get_flag flag_carry
  pure (holds cond flag_n flag_z flag_v flag_c)
