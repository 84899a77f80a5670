-- ===== src/CpuState/DebugPrint.antt =====
-- `debugPrint` of src/cpu_state.cpp: the text that it prints, as the list of its bytes.
use m68k_emu.Base.{ℕ, zero, suc, ◌+◌, if◌then◌else◌, ◌++◌, ◌∷◌, []}
use m68k_emu.Base.Text.{Text, codes, padded_hex}
use m68k_emu.Defines.{
  long, RegisterType, reg_usp, reg_pc, StatusRegisterFlag, flag_carry, flag_overflow, flag_zero,
  flag_negative, flag_extend,
}
use m68k_emu.CpuState.{Action, pure, get_register, get_flag, ◌>>=◌}

newline : Text
newline = 10 ∷ []

-- The number in a register, eight digits in base 16.
unfoldable print_register : Text → RegisterType → Action Text
print_register name reg = do
  value ← get_register reg long
  pure (name ++ (codes ": 0x" ++ padded_hex 8 value newline))

unfoldable print_flag : Text → StatusRegisterFlag → Action Text
print_flag name flag = do
  value ← get_flag flag
  pure (name ++ (codes ": " ++ ((if value then b'1' else b'0') ∷ newline)))

unfoldable then_print : Action Text → Action Text → Action Text
then_print first second = do a ← first; b ← second; pure (a ++ b)

-- A loop over registers: `count` of them are left from the number `i` on, the first one at `base`.
unfoldable print_registers : ℕ → ℕ → ℕ → ℕ → Action Text
print_registers letter base zero i = pure []
print_registers letter base (suc count) i =
    then_print (print_register (letter ∷ ((b'0' + i) ∷ [])) (base + i))
      (print_registers letter base count (i + 1))

unfoldable pub debug_print : Action Text
unfolding then_print newline print_registers print_register print_flag
debug_print = then_print (pure (codes "CPU state:" ++ newline)) (
    then_print (print_registers b'D' 0 8 0) (
      then_print (print_registers b'A' 8 8 0) (
        then_print (print_register (codes "USP") reg_usp) (
          then_print (print_register (codes "PC") reg_pc) (
            then_print (print_flag (codes "E") flag_extend) (
              then_print (print_flag (codes "N") flag_negative) (
                then_print (print_flag (codes "Z") flag_zero) (
                  then_print (print_flag (codes "O") flag_overflow)
                    (print_flag (codes "C") flag_carry)))))))))
