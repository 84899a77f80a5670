-- ===== src/Cpu/CopyByte.antt =====
-- A step of src/cpu.cpp at `move.b (A0)+, (A1)+`: one byte is copied, and both addresses move on.
use m68k_emu.Base.{
  ℕ, ◌+◌, ◌%◌, ◌^◌, ◌≡◌, ◌≢◌, ◌<◌, ◌≤◌, ◌∙◌, arith, refl, ap, ap₂, none, u8, u16, add32, update,
  false, ◌==◌,
}
use m68k_emu.Defines.{RegisterType, byte, word, long, indirect_postincrement, reg_pc, reg_sr, ok}
use m68k_emu.Helpers.{is_memory_alterable, is_negative, mask_8}
use m68k_emu.Helpers.Masks.{mask_8_lem}
use m68k_emu.Registers
use m68k_emu.Registers.{Registers}
use m68k_emu.Registers.Access
use m68k_emu.Registers.ReadBack.{set-same, set-other}
use m68k_emu.Memory
use m68k_emu.Memory.{BaseMemory, write_real_mem}
use m68k_emu.Memory.Access.{get_ok, set_ok, written}
use m68k_emu.CpuState.{CpuState, ◌>>=◌}
use m68k_emu.CpuState.Operands.{get_data}
use m68k_emu.CpuState.Store.{set_data}
use m68k_emu.CpuState.Validity.{IsValid}
use m68k_emu.Decoder.{entry, candidate}
use m68k_emu.Decoder.Table.{opcode_mask_table}
use m68k_emu.Instruction.{get_addressing_mode, get_register_type}
use m68k_emu.Instruction.Class.{Move, move}
use m68k_emu.Instruction.Common.{advance}
use m68k_emu.Instruction.FlagLaws.{with_nzvc, with_nzvc-get}
use m68k_emu.Instruction.RegisterForms.{past, past-IsValid, past_register, past_counter}
use m68k_emu.Instruction.Move
use m68k_emu.Cpu.{execute, step}
use m68k_emu.Cpu.SingleSteps.{step_at}

abbrev pub copy_word : ℕ
copy_word = 0x12d8

abbrev copy_fields : Move
copy_fields = record {
  dest_mode = indirect_postincrement;
  dest_reg = 9;
  src_mode = indirect_postincrement;
  src_reg = 8;
  data_size = byte;
  is_movea = false;
}

copy_entry : (entry (u16 copy_word) none).class ≡ move copy_fields
unfolding entry candidate opcode_mask_table Move.create is_memory_alterable get_addressing_mode
    get_register_type
copy_entry = refl

-- The registers after the copy of a byte of a value.
abbrev copied_registers : (a b value : ℕ) → Registers → Registers
copied_registers a b value r =
    with_nzvc (Registers.set (Registers.set (past r) 8 long (add32 a 1)) 9 long (add32 b 1))
      (is_negative value byte) (value == 0) false false

copy_run :
    (s : CpuState) (a b value : ℕ) (m : BaseMemory)
    → Registers.get (past s.registers) 8 long ≡ a
    → Registers.get (Registers.set (past s.registers) 8 long (add32 a 1)) 9 long ≡ b
    → Memory.get s.memory a byte ≡ ok value
    → Memory.set s.memory b byte value ≡ ok m
    → Move.execute copy_fields s
      ≡ (ok tt, record { memory = m; registers = copied_registers a b value s.registers })
unfolding Move.execute Move.move_data advance get_data set_data ◌>>=◌
copy_run s a b value m ea eb g w = rw (ea, g, eb, w) refl

-- What the copy of the byte at `a` to `b` leaves.
pub record Copies (a b : ℕ) (s s' : CpuState) : Type 0 where
  pub memory :
      s'.memory ≡ record s.memory { base_addr = update s.memory.base_addr b (s.memory.base_addr a) }
  pub source : Registers.get s'.registers 8 long ≡ a + 1
  pub dest : Registers.get s'.registers 9 long ≡ b + 1
  pub others :
      (k : RegisterType)
      → k < 15
      → k ≢ 8
      → k ≢ 9
      → Registers.get s'.registers k long ≡ Registers.get s.registers k long
  pub counter :
      Registers.get s'.registers reg_pc long ≡ (Registers.get s.registers reg_pc long + 2) % 2 ^ 32

module _ (a b value : ℕ) (r : Registers) (v : Access.IsValid r) where
  past-8 : Access.IsValid (Registers.set (past r) 8 long (add32 a 1))
  past-8 = Access.set-IsValid (past r) 8 long (add32 a 1) (past-IsValid r v)

  past-9 :
      Access.IsValid (Registers.set (Registers.set (past r) 8 long (add32 a 1)) 9 long (add32 b 1))
  past-9 = Access.set-IsValid (Registers.set (past r) 8 long (add32 a 1)) 9 long (add32 b 1) past-8

  -- The store of the second address and the flags leave the other registers alone.
  before-9 :
      (k : RegisterType)
      → k ≢ reg_sr
      → k ≢ 15
      → 9 ≢ k
      → Registers.get (copied_registers a b value r) k long
        ≡ Registers.get (Registers.set (past r) 8 long (add32 a 1)) k long
  before-9 k ns na ne =
      with_nzvc-get _ _ _ _ _ k long past-9 ns
      ∙ set-other (Registers.set (past r) 8 long (add32 a 1)) 9 k long (add32 b 1) past-8
          (omega arith) ne (omega arith) na

  before-8 :
      (k : RegisterType)
      → k ≢ 15
      → 8 ≢ k
      → Registers.get (Registers.set (past r) 8 long (add32 a 1)) k long
        ≡ Registers.get (past r) k long
  before-8 k na ne =
      set-other (past r) 8 k long (add32 a 1) (past-IsValid r v) (omega arith) ne (omega arith) na

byte_kept : (value : ℕ) → value < 2 ^ 8 → u8 (mask_8 value) ≡ value
byte_kept value h = omega (arith, mask_8_lem value)

pub stored_byte :
    (m : BaseMemory) (b value : ℕ)
    → b < 2 ^ 24
    → value < 2 ^ 8
    → written m b byte value ≡ record m { base_addr = update m.base_addr b value }
unfolding write_real_mem
stored_byte m b value h hv =
    ap₂ (λ at x. record m { base_addr = update m.base_addr at x }) (omega arith)
      (byte_kept value hv)

after_copy :
    (a b : ℕ) (s : CpuState)
    → Access.IsValid s.registers
    → a + 1 < 2 ^ 32
    → b + 1 < 2 ^ 32
    → Copies a b s (record {
      memory = record s.memory { base_addr = update s.memory.base_addr b (s.memory.base_addr a) };
      registers = copied_registers a b (s.memory.base_addr a) s.registers;
    })
after_copy a b s v ha hb =
    let r = s.registers in
    let value = s.memory.base_addr a in
    record {
      memory = refl;
      source =
          before-9 a b value r v 8 (omega arith) (omega arith) (omega arith)
          ∙ set-same (past r) 8 long (add32 a 1) (past-IsValid r v) (omega arith)
          ∙ omega arith;
      dest =
          with_nzvc-get _ _ _ _ _ 9 long (past-9 a b value r v) (omega arith)
          ∙ set-same _ 9 long (add32 b 1) (past-8 a b value r v) (omega arith)
          ∙ omega arith;
      others = λ k hk n8 n9.
          before-9 a b value r v k (omega arith) (omega arith) (omega arith)
          ∙ before-8 a b value r v k (omega arith) (omega arith)
          ∙ past_register r k long v hk;
      counter =
          before-9 a b value r v reg_pc (omega arith) (omega arith) (omega arith)
          ∙ before-8 a b value r v reg_pc (omega arith) (omega arith)
          ∙ past_counter r v;
    }

-- In a well-formed state, a step at `move.b (A0)+, (A1)+` with both addresses in the memory copies the
-- byte.
pub copy_step :
    (mem_size a b p : ℕ) (s : CpuState)
    → IsValid mem_size s
    → Memory.get s.memory p word ≡ ok copy_word
    → Registers.get s.registers reg_pc long ≡ p
    → Registers.get s.registers 8 long ≡ a
    → Registers.get s.registers 9 long ≡ b
    → a < mem_size
    → b < mem_size
    → mem_size ≤ 2 ^ 24
    → (s' : CpuState) × (step s ≡ (ok tt, s')) × Copies a b s s'
unfolding execute
copy_step mem_size a b p s v w e ea eb ha hb hm =
    let value = s.memory.base_addr a in
    let r = s.registers in
    let read : Memory.get s.memory a byte ≡ ok value =
      get_ok s.memory a byte v.memory tt (omega (arith, v.size))
      ∙ ap (λ x. ok (s.memory.base_addr x)) (omega arith) in
    let wrote : Memory.set s.memory b byte value
        ≡ ok (record s.memory { base_addr = update s.memory.base_addr b value }) =
      set_ok s.memory b byte value tt (omega (arith, v.size))
      ∙ ap ok (stored_byte s.memory b value (omega arith) (v.memory a)) in
    (
      _,
      step_at s copy_word (ap (λ k. Memory.get s.memory k word) e ∙ w)
          ∙ ap (λ c. execute c s) copy_entry
          ∙ copy_run s a b value _ (past_register r 8 long v.registers (omega arith) ∙ ea)
              (before-8 a b value r v.registers 9 (omega arith) (omega arith)
                ∙ past_register r 9 long v.registers (omega arith)
                ∙ eb)
              read wrote,
      after_copy a b s v.registers (omega arith) (omega arith),
    )
