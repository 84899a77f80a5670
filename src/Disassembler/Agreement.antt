-- ===== src/Disassembler/Agreement.antt =====
-- The operand that the disassembler prints takes the words that the execution reads.
use m68k_emu.Base.{ℕ, ◌≡◌, ◌<◌, Bool, true, false, arith, refl, sym}
use m68k_emu.Defines.{
  DataSize, long, AddressingMode, direct_data, direct_addr, indirect_postincrement,
  indirect_predecrement, RegisterType, reg_pc, Result, ok, err,
}
use m68k_emu.Helpers.{is_memory_alterable}
use m68k_emu.Registers
use m68k_emu.Registers.{Registers}
use m68k_emu.CpuState.{CpuState, ◌>>=◌}
use m68k_emu.CpuState.Operands.{get_data, ext_reg_offset, after, before}
use m68k_emu.CpuState.Store.{set_data}
use m68k_emu.Disassembler.{effective_address, fetch}

abbrev pub is_ok : {A : Type 0} → Result A → Bool
is_ok (ok a) = true
is_ok (err e) = false

-- The program counter of a state.
abbrev pub counter : CpuState → ℕ
counter s = Registers.get s.registers reg_pc long

-- A write of a data or address register leaves PC.
pub get_pc-set :
    (r : Registers) (reg : RegisterType) (size : DataSize) (x : ℕ)
    → reg < 16
    → Registers.get (Registers.set r reg size x) reg_pc long ≡ Registers.get r reg_pc long
unfolding Registers.get Registers.set Registers.physical
get_pc-set r reg size x h = ground arith

-- Wherever the execution can read an operand, in any mode on a data or address register, the
-- disassembler can print it, and it leaves PC where the execution leaves it.
pub effective_address-get_data :
    (mode : AddressingMode) (reg : RegisterType) (size : DataSize) (s : CpuState)
    → reg < 16
    → is_ok (get_data mode reg size s).0 ≡ true
    → (is_ok (effective_address mode reg size s).0 ≡ true)
      × (counter (effective_address mode reg size s).1 ≡ counter (get_data mode reg size s).1)
unfolding get_data effective_address fetch ext_reg_offset ◌>>=◌
effective_address-get_data direct_data reg size s h e = (refl, refl)
effective_address-get_data indirect_postincrement reg size s h e =
    ground (
      arith,
      get_pc-set s.registers reg long (after reg size (Registers.get s.registers reg long)) h,
    )
effective_address-get_data indirect_predecrement reg size s h e = ground (
  arith,
  get_pc-set s.registers reg long (before reg size (Registers.get s.registers reg long)) h,
)
effective_address-get_data _ reg size s h e = ground arith

-- Wherever the execution can write an operand, in a mode that an instruction may alter (not relative
-- to PC, immediate or unknown) on a data or address register, the disassembler can print it, and it
-- leaves PC where the execution leaves it.
pub effective_address-set_data :
    (mode : AddressingMode) (reg : RegisterType) (size : DataSize) (value : ℕ) (s : CpuState)
    → reg < 16
    → is_memory_alterable mode ≡ true
    → is_ok (set_data mode reg size value s).0 ≡ true
    → (is_ok (effective_address mode reg size s).0 ≡ true)
      × (counter (effective_address mode reg size s).1 ≡ counter (set_data mode reg size value s).1)
unfolding set_data effective_address fetch ext_reg_offset is_memory_alterable ◌>>=◌
effective_address-set_data direct_data reg size value s h a e =
    (refl, sym (get_pc-set s.registers reg size value h))
effective_address-set_data direct_addr reg size value s h a e =
    (refl, sym (get_pc-set s.registers reg size value h))
effective_address-set_data indirect_postincrement reg size value s h a e =
    ground (
      arith,
      get_pc-set s.registers reg long (after reg size (Registers.get s.registers reg long)) h,
    )
effective_address-set_data indirect_predecrement reg size value s h a e = ground (
  arith,
  get_pc-set s.registers reg long (before reg size (Registers.get s.registers reg long)) h,
)
effective_address-set_data _ reg size value s h a e = ground arith
