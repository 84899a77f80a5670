-- ===== src/Disassembler/Length.antt =====
-- Whole instructions: the disassembler prints as many words as the execution takes.
use m68k_emu.Base.{ℕ, ⊤, ◌≡◌, ◌∙◌, ◌<◌, Bool, true, arith, refl, sym, ap, subst}
use m68k_emu.Defines.{
  DataSize, long, AddressingMode, direct_data, direct_addr, RegisterType, reg_pc, Result, ok, err,
  StatusRegisterFlag,
}
use m68k_emu.Base.{add32, ◌%◌, ◌^◌}
use m68k_emu.Base.Bits.{zero-bit_or}
use m68k_emu.Helpers.Masks.{mask_32_lem, mask_above_32_lem}
use m68k_emu.Helpers.{is_memory_alterable}
use m68k_emu.Memory.{BaseMemory}
use m68k_emu.Registers
use m68k_emu.Registers.{Registers}
use m68k_emu.CpuState.{CpuState, Action, continue, set_flag, ◌>>=◌, ◌>>◌}
use m68k_emu.CpuState.Frame.{Holds, holds_rules, get_data-Holds}
use m68k_emu.CpuState.Operands.{get_data, ext_reg_offset}
use m68k_emu.CpuState.Silent.{get_data_silent}
use m68k_emu.CpuState.Store.{set_data}
use m68k_emu.Base.Text.{Text}
use m68k_emu.CpuState.Keeps.{Keeps, keeps_rules}
use m68k_emu.Instruction.Class.{Operands}
use m68k_emu.Instruction.Common.{set_arithmetic_flags, set_compare_flags, set_logic_flags}
use m68k_emu.Disassembler.{effective_address, fetch, two_operands_text}
use m68k_emu.Disassembler.Agreement.{
  is_ok, counter, effective_address-get_data, effective_address-set_data,
}

module _ {A B : Type 0} where
  -- A chain returns only if its parts return.
  pub bind-ok :
      (m : Action A) (k : A → Action B) (s : CpuState)
      → is_ok ((m >>= k) s).0 ≡ true
      → (a : A) × ((m s).0 ≡ ok a) × (is_ok (k a (m s).1).0 ≡ true) × ((m >>= k) s ≡ k a (m s).1)
  unfolding ◌>>=◌
  bind-ok m k s e = returned (m s).0 (m s).1 e
    where
      returned :
          (r : Result A) (s' : CpuState)
          → is_ok (continue r k s').0 ≡ true
          → (a : A) × (r ≡ ok a) × (is_ok (k a s').0 ≡ true) × (continue r k s' ≡ k a s')
      returned (ok a) s' e = (a, refl, e, refl)
      returned (err x) s' e = cc

get_pc-set_pc :
    (r : Registers) (x : ℕ) → Registers.get (Registers.set r reg_pc long x) reg_pc long ≡ x % 2 ^ 32
unfolding Registers.get Registers.set Registers.physical
get_pc-set_pc r x =
    rw (mask_32_lem x, mask_above_32_lem (r.reg_buffer reg_pc)) (zero-bit_or (x % 2 ^ 32))

-- A printed operand depends on the memory and on PC only.
pub effective_address_congr :
    (mode : AddressingMode) (reg : RegisterType) (size : DataSize) (s s' : CpuState)
    → s.memory ≡ s'.memory
    → counter s ≡ counter s'
    → (is_ok (effective_address mode reg size s).0 ≡ is_ok (effective_address mode reg size s').0)
      × (counter (effective_address mode reg size s).1
          ≡ counter (effective_address mode reg size s').1)
unfolding effective_address fetch ◌>>=◌
effective_address_congr direct_data reg size s s' em ec = (refl, ec)
effective_address_congr _ reg size s s' em ec = ground (
  arith,
  get_pc-set_pc s.registers (add32 (counter s) 2),
  get_pc-set_pc s'.registers (add32 (counter s') 2),
  get_pc-set_pc s.registers (add32 (counter s) 4),
  get_pc-set_pc s'.registers (add32 (counter s') 4),
)

get_data_silent_state :
    (mode : AddressingMode) (reg : RegisterType) (size : DataSize) (s : CpuState)
    → (get_data_silent mode reg size s).1 ≡ s
unfolding get_data_silent ext_reg_offset ◌>>=◌
get_data_silent_state direct_data reg size s = refl
get_data_silent_state _ reg size s = ground arith

-- PC is at `c`.
pub record Counts (c : ℕ) (s : CpuState) : Type 0 where
  pub at_pc : counter s ≡ c

module _ {c : ℕ} where
  set_flag-Counts :
      (flag : StatusRegisterFlag) (value : Bool) → Keeps (Counts c) (set_flag flag value)
  unfolding set_flag Registers.get Registers.set_flag Registers.physical
  set_flag-Counts flag value = record { at = λ s h. record { at_pc = h.at_pc } }

  pub set_arithmetic_flags-Counts :
      (src dest result : ℕ) (size : DataSize)
      → Keeps (Counts c) (set_arithmetic_flags src dest result size)
  unfolding set_arithmetic_flags
  set_arithmetic_flags-Counts src dest result size = search (keeps_rules, set_flag-Counts) depth 9

  pub set_compare_flags-Counts :
      (src dest result : ℕ) (size : DataSize)
      → Keeps (Counts c) (set_compare_flags src dest result size)
  unfolding set_compare_flags
  set_compare_flags-Counts src dest result size = search (keeps_rules, set_flag-Counts) depth 9

  pub set_logic_flags-Counts :
      (result : ℕ) (size : DataSize) → Keeps (Counts c) (set_logic_flags result size)
  unfolding set_logic_flags
  set_logic_flags-Counts result size = search (keeps_rules, set_flag-Counts) depth 9

pub effective_address-Holds :
    {m : BaseMemory} (mode : AddressingMode) (reg : RegisterType) (size : DataSize)
    → Keeps (Holds m) (effective_address mode reg size)
unfolding effective_address fetch
effective_address-Holds direct_addr reg size = search holds_rules
effective_address-Holds _ reg size = search holds_rules

module _ (f : Operands) (src_reg : f.src_reg < 16) (dest_reg : f.dest_reg < 16)
    (stores : is_memory_alterable f.dest_mode ≡ true) where
  printed :
      (name : Text) (s : CpuState) (value : ℕ)
      → let s2 = (get_data f.src_mode f.src_reg f.data_size s).1 in
        is_ok (get_data f.src_mode f.src_reg f.data_size s).0 ≡ true
        → is_ok (set_data f.dest_mode f.dest_reg f.data_size value s2).0 ≡ true
        → (is_ok
              (two_operands_text name f.src_mode f.src_reg f.dest_mode f.dest_reg f.data_size s).0
            ≡ true)
          × (counter
                (two_operands_text name f.src_mode f.src_reg f.dest_mode f.dest_reg f.data_size s).1
              ≡ counter (set_data f.dest_mode f.dest_reg f.data_size value s2).1)
  unfolding two_operands_text ◌>>=◌
  printed name s value e1 e2 =
      let s1 = (effective_address f.src_mode f.src_reg f.data_size s).1 in
      let s2 = (get_data f.src_mode f.src_reg f.data_size s).1 in
      let start : Holds s.memory s = record { same = refl } in
      let here = (effective_address-Holds f.src_mode f.src_reg f.data_size).at s start in
      let there = (get_data-Holds f.src_mode f.src_reg f.data_size).at s start in
      let source = effective_address-get_data f.src_mode f.src_reg f.data_size s src_reg e1 in
      let target =
        effective_address-set_data f.dest_mode f.dest_reg f.data_size value s2 dest_reg stores e2 in
      let moved =
        effective_address_congr f.dest_mode f.dest_reg f.data_size s1 s2
          (here.same ∙ sym there.same) source.1 in
      ground (arith, source, target, moved)

  -- The text of the two operands from `s` on, against a run that returned and left PC where `s'` has it.
  abbrev pub Prints : Text → CpuState → CpuState → Type 0
  Prints name s s' =
      (is_ok (two_operands_text name f.src_mode f.src_reg f.dest_mode f.dest_reg f.data_size s).0
        ≡ true)
      × (counter
            (two_operands_text name f.src_mode f.src_reg f.dest_mode f.dest_reg f.data_size s).1
          ≡ counter s')

  module _ (name : Text) (compute : ℕ → ℕ → ℕ) (flags : ℕ → ℕ → Action ⊤)
      (quiet : (a b c : ℕ) → Keeps (Counts c) (flags a b)) where
    abbrev pub write : ℕ → ℕ → Action ⊤
    write a b = set_data f.dest_mode f.dest_reg f.data_size (compute a b) >> flags a b

    abbrev pub change : ℕ → Action ⊤
    change a = get_data_silent f.dest_mode f.dest_reg f.data_size >>= write a

    printed_write :
        (s : CpuState) (a b : ℕ)
        → let s2 = (get_data f.src_mode f.src_reg f.data_size s).1 in
          is_ok (get_data f.src_mode f.src_reg f.data_size s).0 ≡ true
          → is_ok (write a b s2).0 ≡ true
          → Prints name s (write a b s2).1
    printed_write s a b e h =
        let s2 = (get_data f.src_mode f.src_reg f.data_size s).1 in
        let (u, e3, _, q) =
          bind-ok (set_data f.dest_mode f.dest_reg f.data_size (compute a b)) (λ _. flags a b) s2
            h in
        let s3 = (set_data f.dest_mode f.dest_reg f.data_size (compute a b) s2).1 in
        let (text, same) = printed name s (compute a b) e (ap is_ok e3) in
        let still = (quiet a b (counter s3)).at s3 (record { at_pc = refl }) in
        (text, same ∙ sym still.at_pc ∙ sym (ap (λ x. counter x.1) q))

    printed_change :
        (s : CpuState) (a : ℕ)
        → let s2 = (get_data f.src_mode f.src_reg f.data_size s).1 in
          is_ok (get_data f.src_mode f.src_reg f.data_size s).0 ≡ true
          → is_ok (change a s2).0 ≡ true
          → Prints name s (change a s2).1
    printed_change s a e h =
        let s2 = (get_data f.src_mode f.src_reg f.data_size s).1 in
        let (b, e2, k, q) =
          bind-ok (get_data_silent f.dest_mode f.dest_reg f.data_size) (write a) s2 h in
        let still = get_data_silent_state f.dest_mode f.dest_reg f.data_size s2 in
        let (text, same) =
          printed_write s a b e (subst (λ x. is_ok (write a b x).0 ≡ true) still k) in
        (text, same ∙ sym (ap (λ x. counter (write a b x).1) still) ∙ sym (ap (λ x. counter x.1) q))

    pub printed_read :
        (s : CpuState)
        → is_ok ((get_data f.src_mode f.src_reg f.data_size >>= change) s).0 ≡ true
        → Prints name s ((get_data f.src_mode f.src_reg f.data_size >>= change) s).1
    printed_read s h =
        let (a, e, k, q) = bind-ok (get_data f.src_mode f.src_reg f.data_size) change s h in
        let (text, same) = printed_change s a (ap is_ok e) k in
        (text, same ∙ sym (ap (λ x. counter x.1) q))
