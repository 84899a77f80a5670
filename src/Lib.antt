-- ===== src/Lib.antt =====
-- m68k-emu is an emulator of the Motorola 68000. Its parts, and the files that model them:
--
-- - include/defines.hpp and the enumerations of include/registers.hpp are `Defines`;
--   include/helpers.hpp is `Helpers`, with the shifts and rotations in `Helpers/Rotate`.
-- - `Registers` (include/registers.hpp, src/registers.cpp) is the array of 19 words, with the status
--   register and its flags. The array is a function of the index; A7 means the supervisor's stack
--   pointer while the supervisor bit is set.
-- - `Memory` (include/memory.hpp, src/memory.cpp) holds the bytes behind the base address, as a
--   function of the offset, and their number. `get` and `set` mask the address to 24 digits, refuse a
--   word at an odd address and what ends past the memory. `Memory/Interface` is `IMemory`, with the
--   lists of calls that a client can make; `Memory/Cells` is what a memory promises, a partial map from
--   addresses to bytes, and `Memory/Refinement` puts the two together.
-- - `CpuState` (include/cpu_state.hpp, src/cpu_state.cpp) puts both together: the stack, the
--   conditions, and in its children `Operands`, `Silent` and `Store` the addressing modes. A method
--   is an `Action`: it takes the state and gives a result or an error with the new state, so that
--   what was stored before a throw stays stored.
-- - `Instruction` (src/instructions/*.cpp) has a child for each class, with its constructor
--   `create` and its methods `execute` and `disassembly`. `Instruction/Class` has the fields of the
--   classes, `Common` what their code shares.
-- - `Disassembler` (src/disassembler.cpp) gives the text of registers, sizes, conditions and operands. A
--   text is the list of its bytes (`Base/Text`).
-- - `Decoder` (src/instruction_decoder.cpp) fills the table of 65536 instructions from the mask table,
--   which is `Decoder/Table`, and looks an opcode up in it.
-- - `Cpu` (include/cpu.hpp, src/cpu.cpp) is the step: fetch, decode, execute; `steps` repeats it.
--   `Cpu/Disassembly` is the call of `disassembly` for any class.
-- - `Loader` is `load_elf` of src/cpu.cpp. The reader of ELF files, the library ELFIO of the submodule
--   libs/ELFIO, is a parameter: a record of the functions and constants that `load_elf` uses.
--   `Loader/Image` and `Loader/Refinement` are the memory that a file describes, `Loader/Outcome` what
--   `load_elf` returns, `Loader/Validity` that it keeps a state well formed, and `Loader/FirstStep` puts loader and step together.
--
-- `CpuState/Keeps` has one rule for each way to build an action, for any predicate on states;
-- `CpuState/Validity`, `CpuState/Frame` and `CpuState/Sealed` apply them to well-formed states, to
-- frames and to what no instruction reaches. `CpuState/Atomic`, `CpuState/Definedness` and
-- `CpuState/Alike` have such rules for what a throw leaves, for what C++ gives a meaning and for pairs of
-- states that differ behind the memory; `Cpu/Atomic`, `Cpu/Definedness` and `Cpu/Blindness` carry them
-- through every class to the step. `Cpu/Countdown` and `Cpu/CopyLoop` follow a program of two and
-- one of three instructions through fetch, decoder and execution; `Cpu/UnsignedBranch` and
-- `Cpu/SignedBranch` follow a comparison or a move and the branch after it. `Examples` has one
-- machine and the theorems at it.
--
-- Numbers are natural numbers: a word of 32 bits keeps its remainder written out, and a signed
-- offset is the bit pattern of its extension. No definition takes fuel: the one loop that has no
-- structure, that of the table, counts its 65536 rounds down, the loop over the bytes of a section
-- counts its size down, and `steps` counts the steps that are asked for.
--
-- What the language leaves undefined is an error of its own, `undefined`: a shift by 64 or more, a
-- division by zero, an unsigned product of two 16-bit words from 2^31 up, a sum of two signed offsets
-- outside the 32-bit range, and a read of section data that is not there. An enumeration has no value
-- outside its list, so the `default` cases of the sizes are not there. Two operands in one chain of `<<` are printed from left
-- to right, which C++17 fixes and C++14 leaves open.
--
-- Not modelled: what `load_elf` prints; the allocation of memory, which is the operating system's (what
-- it gives is a parameter of the constructors), and giving a block back, in the destructors and
-- `aligned_free`, after which no operation follows; the assignment of one
-- `CPUState` to another; the tests, the tools and the copy of a JSON library under test/.
pub mod Base
pub mod Defines
pub mod Helpers
pub mod Registers
pub mod Memory
pub mod Instruction
pub mod CpuState
pub mod Loader
pub mod Disassembler
pub mod Decoder
pub mod Cpu
pub mod Examples
