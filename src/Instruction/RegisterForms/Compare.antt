-- ===== src/Instruction/RegisterForms/Compare.antt =====
-- CMP between data registers, src/instructions/cmp.cpp.
use m68k_emu.Base.{ltb, leb, ℕ, ◌≡◌, ◌≢◌, ◌∙◌, ◌+◌, ◌%◌, ◌^◌, ◌<◌, arith, refl, false, ◌==◌, sub32}
use m68k_emu.Defines.{DataSize, byte, word, long, RegisterType, reg_pc, flag_zero, flag_carry, ok}
use m68k_emu.Helpers.{is_negative, is_zero, is_overflow, is_carry}
use m68k_emu.Helpers.Flags.{range}
use m68k_emu.Registers
use m68k_emu.Registers.{Registers}
use m68k_emu.Registers.Access
use m68k_emu.Registers.Access.{IsValid}
use m68k_emu.CpuState.{CpuState, ◌>>=◌}
use m68k_emu.CpuState.Operands.{get_data}
use m68k_emu.Instruction.Common.{advance, set_compare_flags}
use m68k_emu.Instruction.FlagLaws.{with_nzvc, with_nzvc-get}
use m68k_emu.Instruction.Cmp
use m68k_emu.Instruction.RegisterForms.{
  registers, past, operand, past-IsValid, past_register, past_counter, flags_of, operand-data,
}

cmp_run :
    (size : DataSize) (i j : RegisterType) (s : CpuState)
    → Cmp.execute (registers size i j) s ≡ (
      ok tt,
      record {
        memory = s.memory;
        registers =
            let src = operand size i s in
            let dest = operand size j s in
            let result = sub32 dest src in
            with_nzvc
              (past s.registers)
              (is_negative result size)
              (is_zero result size)
              (is_overflow src dest size)
              (is_carry result size);
      },
    )
unfolding Cmp.execute advance get_data set_compare_flags ◌>>=◌
cmp_run size i j s = refl

-- Compares two words of a size: their wrapped difference is zero exactly if they are equal.
difference_zero :
    (size : DataSize) (a b : ℕ)
    → a < range size
    → b < range size
    → (sub32 a b % range size == 0) ≡ (a == b)
difference_zero byte a b ha hb = ground arith
difference_zero word a b ha hb = ground arith
difference_zero long a b ha hb = ground arith

difference_borrow :
    (size : DataSize) (a b : ℕ)
    → size ≢ long
    → a < range size
    → b < range size
    → leb (range size) (sub32 a b) ≡ ltb a b
difference_borrow byte a b ne ha hb = ground arith
difference_borrow word a b ne ha hb = ground arith
difference_borrow long a b ne ha hb = ground arith

-- What a comparison of `dest` with `src` leaves.
pub record Compares (size : DataSize) (src dest : ℕ) (s s' : CpuState) : Type 0 where
  pub memory : s'.memory ≡ s.memory
  pub others :
      (k : RegisterType)
      → k < 15
      → Registers.get s'.registers k long ≡ Registers.get s.registers k long
  pub counter :
      Registers.get s'.registers reg_pc long ≡ (Registers.get s.registers reg_pc long + 2) % 2 ^ 32
  pub equal : Registers.get_flag s'.registers flag_zero ≡ (dest == src)
  pub below : size ≢ long → Registers.get_flag s'.registers flag_carry ≡ ltb dest src
  pub never : size ≡ long → Registers.get_flag s'.registers flag_carry ≡ false

no_borrow : (size : DataSize) (x : ℕ) → size ≡ long → x < 2 ^ 32 → leb (range size) x ≡ false
no_borrow byte x e h = ground arith
no_borrow word x e h = ground arith
no_borrow long x e h = ground arith

compared :
    (size : DataSize) (src dest : ℕ) (s : CpuState)
    → IsValid s.registers
    → src < range size
    → dest < range size
    → Compares size src dest s (record {
      memory = s.memory;
      registers =
          with_nzvc
            (past s.registers)
            (is_negative (sub32 dest src) size)
            (is_zero (sub32 dest src) size)
            (is_overflow src dest size)
            (is_carry (sub32 dest src) size);
    })
compared size src dest s v hs hd =
    let v' = past-IsValid s.registers v in
    let flags = flags_of size src dest (sub32 dest src) (past s.registers) v' in
    record {
      memory = refl;
      others = λ k k8.
          with_nzvc-get _ _ _ _ _ k long v' (omega arith) ∙ past_register s.registers k long v k8;
      counter = with_nzvc-get _ _ _ _ _ reg_pc long v' (omega arith) ∙ past_counter s.registers v;
      equal = flags.zero ∙ difference_zero size dest src hd hs;
      below = λ ne. flags.carry ∙ difference_borrow size dest src ne hd hs;
      never = λ e. flags.carry ∙ no_borrow size (sub32 dest src) e (omega arith);
    }

-- In a state with 32-bit registers, `CMP.size Di, Dj` on data registers returns and changes no data register, none of A0 to A6 and no memory. PC moves past the opcode. It sets Z
-- exactly if the operands are equal, and, at a byte or a word, C exactly if Dj is below Di; at a long
-- word it clears C.
pub cmp_registers :
    (size : DataSize) (i j : RegisterType) (s : CpuState)
    → IsValid s.registers
    → i < 8
    → j < 8
    → (s' : CpuState) × (Cmp.execute (registers size i j) s ≡ (ok tt, s'))
      × Compares size (Registers.get s.registers i size) (Registers.get s.registers j size) s s'
cmp_registers size i j s v hi hj = (
  _,
  cmp_run size i j s,
  rw (operand-data size i s v hi, operand-data size j s v hj)
      (compared size (Registers.get s.registers i size) (Registers.get s.registers j size) s v
        (Access.get-lt s.registers i size v) (Access.get-lt s.registers j size v)),
)
