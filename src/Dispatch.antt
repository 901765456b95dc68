-- ===== src/Dispatch.antt =====
-- The dispatch of recompiled code on a program counter (runner/src/cpu_state.c): the binary search
-- in the generated table, the LoROM bank mirror, the four entry points and the log ring.
pub mod Table
pub mod Search
pub mod Log
pub mod Entry
pub mod Calls
