-- ===== src/Bridge.antt =====
-- The bridge between the interpreter tier and the compiled code (runner/src/snes/interp_bridge.c).
pub mod Coverage
pub mod Sync
pub mod Run
pub mod Tier
