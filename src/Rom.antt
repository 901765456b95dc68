-- ===== src/Rom.antt =====
-- Loading a cartridge image, runner/src/snes/snes_other.c.
pub mod Header
pub mod Expand
pub mod Load
