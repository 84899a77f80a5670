-- ===== src/CpuState/Store.antt =====
-- `setData` of src/cpu_state.cpp.
use m68k_emu.Base.{ℕ, ⊤, add32, sext16}
use m68k_emu.Defines.{
  DataSize, word, long, bytes, AddressingMode, direct_data, direct_addr, indirect,
  indirect_postincrement, indirect_predecrement, indirect_displacement, indirect_index,
  pc_displacement, pc_index, abs_word, abs_long, immediate, unknown, RegisterType, reg_pc,
}
use m68k_emu.CpuState.{
  Action, pure, get_register, set_register, get_memory, set_memory, ◌>>=◌, ◌>>◌,
}
use m68k_emu.CpuState.Operands.{ext_reg_offset, ext_offset, after, before}

unfoldable pub set_data : AddressingMode → RegisterType → DataSize → ℕ → Action ⊤
set_data direct_addr reg size value = set_register reg size value
set_data direct_data reg size value = set_register reg size value
set_data indirect reg size value = do addr ← get_register reg long; set_memory addr size value
set_data indirect_postincrement reg size value = do
  addr ← get_register reg long
  set_memory addr size value
  set_register reg long (after reg size addr)
set_data indirect_predecrement reg size value = do
  old ← get_register reg long
  let addr = before reg size old
  set_memory addr size value
  set_register reg long addr
set_data indirect_displacement reg size value = do
  addr ← get_register reg long
  pc ← get_register reg_pc long
  offset ← get_memory pc word
  set_register reg_pc long (add32 pc (bytes word))
  set_memory (add32 addr (sext16 offset)) size value
set_data indirect_index reg size value = do
  addr ← get_register reg long
  pc ← get_register reg_pc long
  ext_word ← get_memory pc word
  index ← ext_reg_offset ext_word
  set_register reg_pc long (add32 pc (bytes word))
  set_memory (add32 (add32 addr index) (ext_offset ext_word)) size value
set_data abs_word reg size value = do
  pc ← get_register reg_pc long
  signed_word ← get_memory pc word
  set_memory (sext16 signed_word) size value
  set_register reg_pc long (add32 pc (bytes word))
set_data abs_long reg size value = do
  pc ← get_register reg_pc long
  addr ← get_memory pc long
  set_register reg_pc long (add32 pc (bytes long))
  set_memory addr size value
set_data pc_displacement reg size value = pure tt
set_data pc_index reg size value = pure tt
set_data immediate reg size value = pure tt
set_data unknown reg size value = pure tt
