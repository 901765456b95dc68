-- ===== src/Bus.antt =====
-- The memory bus of runner/src/cpu_state.c and the ROM pointer of runner/src/common_rtl.c: where
-- a 24-bit address leads, and the byte and word access of the recompiled code.
pub mod Map
pub mod Access
