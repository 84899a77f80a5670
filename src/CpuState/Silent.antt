-- ===== src/CpuState/Silent.antt =====
-- `getDataSilent` of src/cpu_state.cpp: the read that leaves the registers alone.
use m68k_emu.Base.{ℕ, add32, sext16}
use m68k_emu.Defines.{
  DataSize, word, long, AddressingMode, direct_data, direct_addr, indirect, indirect_postincrement,
  indirect_predecrement, indirect_displacement, indirect_index, pc_displacement, pc_index, abs_word,
  abs_long, immediate, unknown, RegisterType, reg_pc,
}
use m68k_emu.CpuState.{Action, pure, get_register, get_memory, ◌>>=◌}
use m68k_emu.CpuState.Operands.{ext_reg_offset, ext_offset, before, memory_size_of, immediate_of}

unfoldable pub get_data_silent : AddressingMode → RegisterType → DataSize → Action ℕ
get_data_silent direct_addr reg size = get_register reg size
get_data_silent direct_data reg size = get_register reg size
get_data_silent indirect reg size = do addr ← get_register reg long; get_memory addr size
get_data_silent indirect_postincrement reg size = do
  addr ← get_register reg long
  get_memory addr size
get_data_silent indirect_predecrement reg size = do
  old ← get_register reg long
  get_memory (before reg size old) size
get_data_silent indirect_displacement reg size = do
  addr ← get_register reg long
  pc ← get_register reg_pc long
  offset ← get_memory pc word
  get_memory (add32 addr (sext16 offset)) size
get_data_silent indirect_index reg size = do
  addr ← get_register reg long
  pc ← get_register reg_pc long
  ext_word ← get_memory pc word
  index ← ext_reg_offset ext_word
  get_memory (add32 (add32 addr index) (ext_offset ext_word)) size
get_data_silent pc_displacement reg size = do
  pc ← get_register reg_pc long
  offset ← get_memory pc word
  get_memory (add32 pc (sext16 offset)) size
get_data_silent pc_index reg size = do
  pc ← get_register reg_pc long
  ext_word ← get_memory pc word
  index ← ext_reg_offset ext_word
  get_memory (add32 (add32 pc index) (ext_offset ext_word)) size
get_data_silent abs_word reg size = do
  pc ← get_register reg_pc long
  signed_word ← get_memory pc word
  get_memory (sext16 signed_word) size
get_data_silent abs_long reg size = do
  pc ← get_register reg_pc long
  addr ← get_memory pc long
  get_memory addr size
get_data_silent immediate reg size = do
  pc ← get_register reg_pc long
  value ← get_memory pc (memory_size_of size)
  pure (immediate_of size value)
get_data_silent unknown reg size = pure 0
