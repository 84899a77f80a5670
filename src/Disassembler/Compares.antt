-- ===== src/Disassembler/Compares.antt =====
-- Whole instructions that read both operands: the disassembler prints as many words as the execution
-- takes.
use m68k_emu.Base.{ℕ, ⊤, ◌≡◌, ◌∙◌, ◌<◌, true, arith, refl, sym, ap}
use m68k_emu.CpuState.{CpuState, Action, ◌>>=◌}
use m68k_emu.CpuState.Frame.{Holds, get_data-Holds}
use m68k_emu.CpuState.Operands.{get_data}
use m68k_emu.Base.Text.{Text}
use m68k_emu.CpuState.Keeps.{Keeps}
use m68k_emu.Instruction.Class.{Operands}
use m68k_emu.Disassembler.{effective_address, two_operands_text}
use m68k_emu.Disassembler.Agreement.{is_ok, counter, effective_address-get_data}
use m68k_emu.Disassembler.Length.{bind-ok, Counts, effective_address-Holds, effective_address_congr}

module _ (f : Operands) (src_reg : f.src_reg < 16) (dest_reg : f.dest_reg < 16) (name : Text) where
  abbrev pub Prints : CpuState → CpuState → Type 0
  Prints s s' =
      (is_ok (two_operands_text name f.src_mode f.src_reg f.dest_mode f.dest_reg f.data_size s).0
        ≡ true)
      × (counter
            (two_operands_text name f.src_mode f.src_reg f.dest_mode f.dest_reg f.data_size s).1
          ≡ counter s')

  abbrev pub dest_read : Action ℕ
  dest_read = get_data f.dest_mode f.dest_reg f.data_size

  both_read :
      (s : CpuState)
      → let s2 = (get_data f.src_mode f.src_reg f.data_size s).1 in
        is_ok (get_data f.src_mode f.src_reg f.data_size s).0 ≡ true
        → is_ok (dest_read s2).0 ≡ true
        → Prints s (dest_read s2).1
  unfolding two_operands_text ◌>>=◌
  both_read s e1 e2 =
      let s1 = (effective_address f.src_mode f.src_reg f.data_size s).1 in
      let s2 = (get_data f.src_mode f.src_reg f.data_size s).1 in
      let start : Holds s.memory s = record { same = refl } in
      let here = (effective_address-Holds f.src_mode f.src_reg f.data_size).at s start in
      let there = (get_data-Holds f.src_mode f.src_reg f.data_size).at s start in
      let source = effective_address-get_data f.src_mode f.src_reg f.data_size s src_reg e1 in
      let target = effective_address-get_data f.dest_mode f.dest_reg f.data_size s2 dest_reg e2 in
      let moved =
        effective_address_congr f.dest_mode f.dest_reg f.data_size s1 s2
          (here.same ∙ sym there.same) source.1 in
      ground (arith, source, target, moved)

  module _ (flags : ℕ → ℕ → Action ⊤) (quiet : (a b c : ℕ) → Keeps (Counts c) (flags a b)) where
    abbrev pub tested : ℕ → Action ⊤
    tested a = dest_read >>= flags a

    pub compared :
        (s : CpuState)
        → is_ok ((get_data f.src_mode f.src_reg f.data_size >>= tested) s).0 ≡ true
        → Prints s ((get_data f.src_mode f.src_reg f.data_size >>= tested) s).1
    compared s h =
        let (a, e, k, q) = bind-ok (get_data f.src_mode f.src_reg f.data_size) tested s h in
        let s2 = (get_data f.src_mode f.src_reg f.data_size s).1 in
        let (b, e2, k2, q2) = bind-ok dest_read (flags a) s2 k in
        let s3 = (dest_read s2).1 in
        let (text, same) = both_read s (ap is_ok e) (ap is_ok e2) in
        let still = (quiet a b (counter s3)).at s3 (record { at_pc = refl }) in
        (text, same ∙ sym still.at_pc ∙ sym (ap (λ x. counter x.1) (q ∙ q2)))
