-- ===== src/Dma.antt =====
-- The DMA controller, runner/src/snes/dma.c.
pub mod Registers
pub mod Transfer
pub mod Cycles
pub mod Finish
use snesrecomp.Base.{ℕ, Bool, true, false, ◌==◌, if◌then◌else◌}

-- `DmaChannel`
pub record Channel : Type 0 where
  pub b_adr : ℕ
  pub a_adr : ℕ
  pub a_bank : ℕ
  pub size : ℕ
  pub ind_bank : ℕ
  pub table_adr : ℕ
  pub rep_count : ℕ
  pub unused_byte : ℕ
  pub dma_active : Bool
  pub hdma_active : Bool
  pub mode : ℕ
  pub fixed : Bool
  pub decrement : Bool
  pub indirect : Bool
  pub from_b : Bool
  pub unused_bit : Bool
  pub do_transfer : Bool
  pub terminated : Bool
  pub off_index : ℕ

-- `Dma`; its channels are the numbers below 8.
pub record Dma : Type 0 where
  pub channel : ℕ → Channel
  pub dma_timer : ℕ
  pub dma_busy : Bool

abbrev pub set_channel : Dma → ℕ → Channel → Dma
set_channel d c ch = record d { channel = λ i. if i == c then ch else d.channel i }

abbrev pub reset_channel : Channel → Channel
reset_channel ch = record {
  b_adr = 0xff;
  a_adr = 0xffff;
  a_bank = 0xff;
  size = 0xffff;
  ind_bank = 0xff;
  table_adr = 0xffff;
  rep_count = 0xff;
  unused_byte = 0xff;
  dma_active = false;
  hdma_active = false;
  mode = 7;
  fixed = true;
  decrement = true;
  indirect = true;
  from_b = true;
  unused_bit = true;
  do_transfer = false;
  terminated = false;
  off_index = 0;
}

-- `dma_reset`
unfoldable pub reset : Dma → Dma
reset d = record { channel = λ i. reset_channel (d.channel i); dma_timer = 0; dma_busy = false }
