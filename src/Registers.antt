-- ===== src/Registers.antt =====
-- include/registers.hpp and src/registers.cpp: the register array and the status register.
-- The union's named members and bit fields are views of the array: `sr.supervisor` is the digit
-- at 13 of entry `REG_SR`. The array is a function of the index. The asserts hold at every index
-- that the code forms, which are below `REGS_COUNT`; `DataSize` has no fourth value, so the
-- `default` cases that throw cannot be reached.
pub mod Access
pub mod Flags
pub mod ReadBack
use m68k_emu.Base.{
  ℕ, ◌-◌, ◌^◌, Bool, ◌&&◌, bit_and, bit_or, ◌==◌, truth, u32, if◌then◌else◌, update,
}
use m68k_emu.Defines.{
  DataSize, byte, word, long, RegisterType, reg_a7, reg_usp, reg_ssp, reg_sr, StatusRegisterFlag,
  flag_supervisor, place,
}
use m68k_emu.Helpers.{mask_8, mask_16, mask_32, mask_above_8, mask_above_16, mask_above_32}

pub record Registers : Type 0 where
  pub reg_buffer : ℕ → ℕ

unfoldable pub get_flag : Registers → StatusRegisterFlag → Bool
get_flag r flag = truth (bit_and (r.reg_buffer reg_sr) (2 ^ place flag))

-- `~flag_mask` on uint32_t is the mask taken from the word of all ones.
abbrev pub with_flag : ℕ → ℕ → Bool → ℕ
with_flag sr_value flag_mask value =
    let cleared = bit_and sr_value (0xffff_ffff - flag_mask) in
    if value then bit_or cleared flag_mask else cleared

unfoldable pub set_flag : Registers → StatusRegisterFlag → Bool → Registers
set_flag r flag value = record {
  reg_buffer = update r.reg_buffer reg_sr (with_flag (r.reg_buffer reg_sr) (2 ^ place flag) value);
}

-- A7 is the supervisor's stack pointer while the supervisor bit is set.
unfoldable pub physical : Registers → RegisterType → RegisterType
physical r reg_ind = if reg_ind == reg_a7 && get_flag r flag_supervisor then reg_ssp else reg_ind

abbrev pub narrow : ℕ → DataSize → ℕ
narrow output_data byte = mask_8 output_data
narrow output_data word = mask_16 output_data
narrow output_data long = output_data

unfoldable pub get : Registers → RegisterType → DataSize → ℕ
get r reg_ind size = narrow (r.reg_buffer (physical r reg_ind)) size

abbrev pub merge : ℕ → DataSize → ℕ → ℕ
merge reg_value byte value = bit_or (mask_above_8 reg_value) (mask_8 value)
merge reg_value word value = bit_or (mask_above_16 reg_value) (mask_16 value)
merge reg_value long value = bit_or (mask_above_32 reg_value) (mask_32 value)

abbrev pub stored : Registers → RegisterType → DataSize → ℕ → ℕ
stored r i size value =
    let reg_value = merge (r.reg_buffer i) size value in
    if i == reg_sr then mask_16 reg_value else reg_value

unfoldable pub set : Registers → RegisterType → DataSize → ℕ → Registers
set r reg_ind size value =
    let i = physical r reg_ind in
    record { reg_buffer = update r.reg_buffer i (stored r i size value) }

-- The template `set_`: the size is that of the type of the value.
unfoldable pub set_ : Registers → RegisterType → DataSize → ℕ → Registers
set_ r reg_ind size_of_type value = set r reg_ind size_of_type (u32 value)

unfoldable pub stack_ptr : Registers → ℕ
stack_ptr r = if get_flag r flag_supervisor then r.reg_buffer reg_ssp else r.reg_buffer reg_usp
