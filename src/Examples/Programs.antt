-- ===== src/Examples/Programs.antt =====
-- The copying loop, at a machine that copies five bytes, and a comparison and a move, each with a
-- branch.
use m68k_emu.Base.{
  ◌<◌, ◌≢◌, add32, sext8, ◌*◌, ◌≡◌, arith, refl, inr, leb, ltb, ◌&&◌, ◌==◌, if◌then◌else◌,
}
use m68k_emu.Defines.{byte, long, word, RegisterType, reg_pc, higher, less_than, ok}
use m68k_emu.Helpers.{mask_addr, mask_16}
use m68k_emu.Registers
use m68k_emu.Memory
use m68k_emu.CpuState.{CpuState, ◌>>◌}
use m68k_emu.Instruction.Class.{Bcc, cmp, move, bcc}
use m68k_emu.Instruction.RegisterForms.{registers}
use m68k_emu.Helpers.Overflow.{to_signed}
use m68k_emu.Instruction.RegisterForms.Transfer.{transfer}
use m68k_emu.Cpu.SignedBranch.{against_zero, branch-move}
use m68k_emu.Cpu.UnsignedBranch.{compares, branch-cmp}
use m68k_emu.Examples.{machine, machine-IsValid}
use m68k_emu.CpuState.Validity.{IsValid}
use m68k_emu.Cpu.{execute, steps}
use m68k_emu.Cpu.CopyRound.{Program}
use m68k_emu.Cpu.CopyLoop.{Copied, steps_copy}

-- The loop on D0 at 32, five bytes at 64, and room for them at 96.
copying : CpuState
copying = record {
  memory = record {
    base_addr = λ i.
        if i == 32
        then 0x12
        else if i == 33
        then 0xd8
        else if i == 34
        then 0x53
        else if i == 35
        then 0x40
        else if i == 36
        then 0x66
        else if i == 37
        then 0xfa
        else if leb 64 i && ltb i 69
        then i
        else 0;
    mem_size = 128;
  };
  registers = record {
    reg_buffer = λ i.
        if i == 0
        then 5
        else if i == 8
        then 64
        else if i == 9
        then 96
        else if i == 17
        then 32
        else 0;
  };
}

copying-IsValid : IsValid 128 copying
unfolding copying
copying-IsValid = record {
  registers = record { words = λ i. ground arith; status = omega arith };
  memory = λ i. ground arith;
  size = refl;
}

copying-Program : Program 0 32 copying.memory
unfolding copying Memory.get Memory.check Memory.read_real_mem mask_addr
copying-Program = record { copies = refl; counts = refl; goes_back = refl }

copying-pc : Registers.get copying.registers reg_pc long ≡ 32
unfolding copying Registers.get Registers.physical Registers.get_flag
copying-pc = refl

copying-a0 : Registers.get copying.registers 8 long ≡ 64
unfolding copying Registers.get Registers.physical Registers.get_flag
copying-a0 = refl

copying-a1 : Registers.get copying.registers 9 long ≡ 96
unfolding copying Registers.get Registers.physical Registers.get_flag
copying-a1 = refl

copying-d0 : Registers.get copying.registers 0 word ≡ 5
unfolding copying Registers.get Registers.physical Registers.get_flag mask_16
copying-d0 = refl

steps_copy_example :
    (s' : CpuState) × (steps (3 * 5) copying ≡ (ok tt, s')) × Copied 0 64 96 32 5 copying s'
steps_copy_example =
    steps_copy 128 0 64 96 32 4 copying copying-IsValid copying-Program (omega arith) (omega arith)
      (omega arith) (omega arith) (omega arith) (omega arith) (inr (omega arith))
      (inr (omega arith)) copying-pc copying-a0 copying-a1 copying-d0

-- BHI past the next two words.
abbrev bhi : Bcc
bhi = record { condition = higher; displacement_8 = 4; data_size = byte }

branch-cmp_example :
    (s' : CpuState) × ((execute (cmp (registers word 1 0)) >> execute (bcc bhi)) (machine 8)
      ≡ (ok tt, s'))
    × (s'.memory ≡ (machine 8).memory)
    × ((k : RegisterType)
        → k < 15
        → Registers.get s'.registers k long ≡ Registers.get (machine 8).registers k long)
    × (Registers.get s'.registers reg_pc long ≡ (
        let next = add32 (Registers.get (machine 8).registers reg_pc long) 4 in
        if compares higher
          (Registers.get (machine 8).registers 0 word)
          (Registers.get (machine 8).registers 1 word)
        then add32 next (sext8 4)
        else next))
branch-cmp_example =
    branch-cmp 128 word 1 0 bhi (machine 8) (machine-IsValid 8 (omega arith)) (omega arith)
      (omega arith) (λ e. cc e) refl refl

-- BLT back over the move.
abbrev blt : Bcc
blt = record { condition = less_than; displacement_8 = 0xfc; data_size = byte }

branch-move_example :
    (s' : CpuState) × ((execute (move (transfer word 1 0)) >> execute (bcc blt)) (machine 8)
      ≡ (ok tt, s'))
    × (s'.memory ≡ (machine 8).memory)
    × (Registers.get s'.registers 0 word ≡ Registers.get (machine 8).registers 1 word)
    × ((k : RegisterType)
        → k < 15
        → 0 ≢ k
        → Registers.get s'.registers k long ≡ Registers.get (machine 8).registers k long)
    × (Registers.get s'.registers reg_pc long ≡ (
        let next = add32 (Registers.get (machine 8).registers reg_pc long) 4 in
        if against_zero less_than (to_signed word (Registers.get (machine 8).registers 1 word))
        then add32 next (sext8 0xfc)
        else next))
branch-move_example =
    branch-move 128 word 1 0 blt (machine 8) (machine-IsValid 8 (omega arith)) (omega arith)
      (omega arith) refl refl
