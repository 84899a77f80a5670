-- ===== src/CpuState/Agreement.antt =====
-- `getDataSilent` against `getData`: the same value or exception, with the state left alone.
-- They part at the absolute word mode, where one sign-extends the address and the other does not.
use m68k_emu.Base.{ℕ, ◌≡◌, ◌≢◌, arith, refl, ◌^◌, ◌<◌, ◌≤◌, sext16}
use m68k_emu.Defines.{
  DataSize, word, long, AddressingMode, direct_data, direct_addr, indirect, indirect_postincrement,
  indirect_predecrement, indirect_displacement, indirect_index, pc_displacement, pc_index, abs_word,
  abs_long, immediate, unknown, RegisterType, reg_pc, ok,
}
use m68k_emu.Memory
use m68k_emu.Memory.Errors.{bus}
use m68k_emu.Registers
use m68k_emu.CpuState.{CpuState, ◌>>=◌}
use m68k_emu.CpuState.Operands.{get_data, ext_reg_offset}
use m68k_emu.CpuState.Silent.{get_data_silent}

-- In every mode but the absolute word, the silent read gives what the other read gives, an
-- exception included, and changes nothing.
pub get_data_silent_lem :
    (mode : AddressingMode) (reg : RegisterType) (size : DataSize) (s : CpuState)
    → mode ≢ abs_word
    → get_data_silent mode reg size s ≡ ((get_data mode reg size s).0, s)
unfolding get_data get_data_silent ext_reg_offset ◌>>=◌
get_data_silent_lem direct_data reg size s ne = refl
get_data_silent_lem direct_addr reg size s ne = refl
get_data_silent_lem indirect reg size s ne = refl
get_data_silent_lem indirect_postincrement reg size s ne = ground arith
get_data_silent_lem indirect_predecrement reg size s ne = ground arith
get_data_silent_lem indirect_displacement reg size s ne = ground arith
get_data_silent_lem indirect_index reg size s ne = ground arith
get_data_silent_lem pc_displacement reg size s ne = ground arith
get_data_silent_lem pc_index reg size s ne = ground arith
get_data_silent_lem abs_word reg size s ne = absurd (ne refl)
get_data_silent_lem abs_long reg size s ne = ground arith
get_data_silent_lem immediate reg size s ne = ground arith
get_data_silent_lem unknown reg size s ne = refl

-- With an address word `w` from 0x8000 up behind PC, `getData` reads at `w`, and `getDataSilent`
-- at the sign-extended `w`, which is another address of the 24-bit bus.
pub get_data_abs_word :
    (reg : RegisterType) (size : DataSize) (s : CpuState) {w : ℕ}
    → Memory.get s.memory (Registers.get s.registers reg_pc long) word ≡ ok w
    → 0x8000 ≤ w
    → w < 2 ^ 16
    → ((get_data abs_word reg size s).0 ≡ Memory.get s.memory w size)
      × ((get_data_silent abs_word reg size s).0 ≡ Memory.get s.memory (sext16 w) size)
      × (bus w ≢ bus (sext16 w))
unfolding get_data get_data_silent ◌>>=◌
get_data_abs_word reg size s h lo hi = (ground arith, ground arith, ground arith)
