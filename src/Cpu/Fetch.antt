-- ===== src/Cpu/Fetch.antt =====
-- What one call of `step` does: fetch, decode, execute (src/cpu.cpp).
use m68k_emu.Base.{ℕ, ⊤, ◌≡◌, ◌∙◌, arith, refl, ap, u16, none}
use m68k_emu.Defines.{word, long, reg_pc, invalid_argument, Result, ok, err}
use m68k_emu.Registers
use m68k_emu.Memory
use m68k_emu.CpuState.{CpuState, ◌>>=◌}
use m68k_emu.Instruction.Class.{illegal}
use m68k_emu.Instruction.Common.{advance}
use m68k_emu.Instruction.Illegal
use m68k_emu.Decoder.{entry}
use m68k_emu.Decoder.Generated.{decode_lem}
use m68k_emu.Cpu.{execute, step}

-- The next state from what the fetch of the word at PC gives.
abbrev pub dispatched : Result ℕ → CpuState → Result ⊤ × CpuState
dispatched (ok opcode) s = execute (entry (u16 opcode) none).class s
dispatched (err e) s = (err e, s)

abbrev pub fetched : CpuState → Result ℕ
fetched s = Memory.get s.memory (Registers.get s.registers reg_pc long) word

dispatch : (r : Result ℕ) (s : CpuState) → fetched s ≡ r → step s ≡ dispatched r s
unfolding step ◌>>=◌
dispatch (ok opcode) s e = rw (e, decode_lem (u16 opcode) (omega arith)) refl
dispatch (err x) s e = rw e refl

-- One step reads the word at PC. If the read throws, so does the step, and nothing changes. If not,
-- the step runs the instruction that the table rows give for that word: the lookup of the generated
-- table never fails.
pub step_lem : (s : CpuState) → step s ≡ dispatched (fetched s) s
step_lem s = dispatch (fetched s) s refl

-- A step at a word for which no row of the table makes a valid instruction throws `invalid_argument`,
-- in the state that moving PC past the word leaves.
step_illegal :
    (s : CpuState) (opcode : ℕ)
    → fetched s ≡ ok opcode
    → (entry (u16 opcode) none).class ≡ illegal
    → step s ≡ (err invalid_argument, (advance s).1)
unfolding execute Illegal.execute advance ◌>>=◌
step_illegal s opcode e h = dispatch (ok opcode) s e ∙ ap (λ c. execute c s) h
