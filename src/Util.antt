-- ===== src/Util.antt =====
-- The utilities of runner/src/util.c: the address index of a block of memory and its texts.
pub mod Memblk
pub mod Parts
pub mod Text
