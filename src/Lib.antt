-- ===== src/Lib.antt =====
-- The runtime of snesrecomp: what compiled SNES code runs on.
--
-- A game is compiled ahead of time to C bodies that call this runtime. The runtime holds the
-- 65816 registers, gives the bodies the memory map of the console, dispatches indirect jumps to the
-- compiled bodies, falls back on an interpreter where there is none, and keeps the compiled code's
-- stack discipline. The files:
-- - Base, and its children: numbers, tests, lists, bits, memories, tables that update a first match.
-- - Cpu (runner/src/cpu_state.h): `CpuState`, the typed register access (`read_a_m` is
--   `cpu_read_a_m`) and the packed status register.
-- - Bus (runner/src/cpu_state.c): Bus/Map has `cpu_ram_offset`, `is_hw_reg`, `cpu_sram_offset` and
--   the index of `RomPtr`; Bus/Access has `cpu_read8` to `cpu_write16` and the pushes. The globals
--   are the record `Machine`. The registers behind `ReadReg` and `WriteReg` are the interface
--   `Registers`, since a register access may change anything.
-- - Dispatch (runner/src/cpu_state.c): the table with its binary search, the ring of recent
--   dispatches, and `cpu_dispatch_pc` with its siblings. The table and the bodies are generated
--   code: parameters, where a body is any function of the state of the runtime.
-- - Infra (runner/src/common_cpu_infra.c): the abandon table, the search for an ancestor frame, the
--   tail-call context, the stack-balance auditor and the ring of snapshots.
-- - Bridge (runner/src/snes/interp_bridge.c): the register sync, the run loop, the entries of the
--   interpreter tier, the table of coverage gaps. `interp816_runOpcode` is a parameter.
-- - Dma (runner/src/snes/dma.c): the registers, the transfer and how long it takes. The buses are the
--   interface `Port`, which Snes/ABus/Quiet fills with those of the console. The loop of snes.c that runs
--   a transfer has as fuel the calls that are left.
-- - Cart (runner/src/snes/cart.c): loads and stores of LoROM and HiROM cartridges.
-- - Apu (runner/src/snes/apu.c): the queue of port writes, the timers and the registers, over the
--   interface `Core` of the SPC700 and the DSP; Apu/PortClock has the target clock of `RtlApuWrite`
--   in runner/src/common_rtl.c and Apu/PortWrites the whole function, with the catch-up as a
--   parameter.
-- - Snes (runner/src/snes/snes.c): the internal registers, the B bus and the A bus, over the
--   interface `Devices`.
-- - Frame (runner/src/common_rtl.c): the inputs of a frame; Frame/Hdma has `SimpleHdma` and the
--   pointers of HDMA and of block moves, Frame/Upload the upload of a sound program to the APU: 512
--   blocks and the one that fails are all the turns its loop makes. Frame/Registers has `WriteReg`,
--   `ReadReg` and their words, which fill the interface of the CPU bus (Bus/Access); the PPU and the
--   catch-up of the APU are parameters.
-- - Checksum (runner/src/util.c, runner/src/crc32.c): the bitwise and the table-driven CRC-32.
-- - Patch (runner/src/util.c): `BpsDecodeInt` and `ApplyBps`. Patch/Encode describes patches by
--   commands with absolute positions. The loop over the commands has the length of the patch as fuel.
-- - Msu (runner/src/snes/msu1.c): the MSU-1 registers, its data channel (Msu/Seek) and the frames of its
--   audio track (Msu/Audio). Msu/Files has the files of the C library that they use; what is on disk is
--   an argument. The loop that reads frames has fuel for two rounds.
-- - Digest (runner/src/sha256.c): SHA-256. The loop over the full blocks has the length of the data as
--   fuel.
-- - Rom (runner/src/snes/snes_other.c): `snes_loadRom`; Rom/Header has `readHeader`, Rom/Load the choice
--   of a header and the cartridge, Rom/Expand the two loops that expand the image. `newLength` starts at
--   0x8000 and doubles at most 15 times for an image of 2 ^ 30 bytes, `test` at most 31 times: both are
--   `int`. The buffer is the list of the bytes that have been written to it.
-- - Trace (runner/src/cpu_trace.c): the boundary auditor and its tripwire; Trace/Calls has
--   `RecompStackPush` and `RecompStackPop` of runner/src/common_cpu_infra.c with all that they record.
--   Balanced calls are a tree, the machine at each entry and exit being any. `round_pow2_down` doubles
--   at most 64 times.
-- - Util (runner/src/util.c): the index of a block (Util/Memblk), its parts (Util/Parts) and the texts
--   (Util/Text). The binary search has the number of parts as its fuel, which is enough since each turn
--   drops at least one.
-- - Tests: runs on concrete data.
--
-- Words are natural numbers with the wrap-around written out. The binary search has fuel one above
-- the length of the table, and the run loop has the step cap of the code as its fuel, at which the
-- code itself stops. The probe of the stack-balance table makes at most 2048 steps, as in the code.
--
-- Not modelled: the interpreters of the CPU and of the SPC700, the DSP and the renderer, which come
-- from another project; the other trace rings and the debug server, which only observe; the launcher,
-- file input and output; and the recompiler. In the models that are there: `long` has 64 bits and
-- `fseek` succeeds (Msu); a table of HDMA is not cut off at the end of `g_ram` or of the ROM.
pub mod Base
pub mod Cpu
pub mod Bus
pub mod Dispatch
pub mod Infra
pub mod Bridge
pub mod Dma
pub mod Cart
pub mod Apu
pub mod Snes
pub mod Frame
pub mod Checksum
pub mod Patch
pub mod Msu
pub mod Digest
pub mod Rom
pub mod Trace
pub mod Util
pub mod Tests
