-- ===== src/Snes.antt =====
-- The console side, runner/src/snes/snes.c: the internal registers, the B bus and the A bus that
-- DMA reads and writes through. The PPU, the APU ports and a DMA run are the interface `Devices`.
-- The traces and the debug server only observe, and have no part.
pub mod Counters
pub mod Arithmetic
pub mod ABus
use snesrecomp.Base.{
  ℕ, zero, suc, ◌+◌, ◌*◌, ◌/◌, ◌%◌, ◌^◌, Bool, true, false, ◌&&◌, ◌||◌, not, ltb, leb, ◌==◌,
  if◌then◌else◌, of_bool, Memory, update, test_bit, byte_lo, byte_hi, u16,
}
use snesrecomp.Dma.{Dma}
use snesrecomp.Dma.Transfer.{start_dma}
use snesrecomp.Cart.{Cart}

-- `Snes`, the part that the registers reach; `dev` is the state of the other devices.
pub record Snes (S : Type 0) : Type 0 where
  pub dev : S
  pub dma : Dma
  pub cart : Cart
  pub ram : Memory
  pub ram_adr : ℕ
  pub h_pos : ℕ
  pub v_pos : ℕ
  pub h_irq_enabled : Bool
  pub v_irq_enabled : Bool
  pub nmi_enabled : Bool
  pub h_timer : ℕ
  pub v_timer : ℕ
  pub in_nmi : Bool
  pub in_irq : Bool
  pub in_vblank : Bool
  pub auto_joy_read : Bool
  pub auto_joy_timer : ℕ
  pub ppu_latch : Bool
  pub multiply_a : ℕ
  pub multiply_result : ℕ
  pub divide_a : ℕ
  pub divide_result : ℕ
  pub input1 : ℕ
  pub input2 : ℕ

-- `ppu_read`, `ppu_write`, the catch-up and read of an APU port, `RtlApuWrite`, and
-- `dma_startDma` for a transfer with `while (dma_cycle(dma)) {}`.
pub record Devices (S : Type 0) : Type 0 where
  pub ppu_read : Snes S → ℕ → ℕ × Snes S
  pub ppu_write : Snes S → ℕ → ℕ → Snes S
  pub apu_read : Snes S → ℕ → ℕ × Snes S
  pub apu_write : Snes S → ℕ → ℕ → Snes S
  pub general_dma : Snes S → ℕ → Snes S

-- The loop of `SwapInputBits`.
unfoldable pub swap_loop : ℕ → ℕ → ℕ → ℕ
swap_loop zero x r = r
swap_loop (suc n) x r = swap_loop n (x / 2) (u16 (r * 2 + x % 2))

unfoldable pub swap_input_bits : ℕ → ℕ
unfolding swap_loop
swap_input_bits x = swap_loop 16 x 0

module _ {S : Type 0} where
  -- A read of $4212 moves the counters on: 64 dots, and a line when they wrap.
  unfoldable pub advance_counters : Snes S → Snes S
  advance_counters s =
      let h = (s.h_pos + 64) % 1364 in
      record s { h_pos = h; v_pos = if ltb h s.h_pos then (s.v_pos + 1) % 262 else s.v_pos }

  -- The value read at $4212. The three are different bits, so `|` of them is their sum.
  unfoldable pub status : Snes S → ℕ
  status s =
      of_bool (ltb 0 s.auto_joy_timer)
      + of_bool (leb 1024 s.h_pos) * 2 ^ 6
      + of_bool (s.in_vblank || leb 225 s.v_pos) * 2 ^ 7

  -- `snes_readReg`
  unfoldable pub read_reg : Snes S → ℕ → ℕ × Snes S
  unfolding advance_counters status
  read_reg s adr =
      if adr == 0x4210
      then (0x2 + of_bool s.in_nmi * 2 ^ 7, record s { in_nmi = false })
      else if adr == 0x4211
      then (of_bool s.in_irq * 2 ^ 7, record s { in_irq = false })
      else if adr == 0x4212
      then (status (advance_counters s), advance_counters s)
      else if adr == 0x4213
      then (of_bool s.ppu_latch * 2 ^ 7, s)
      else if adr == 0x4214
      then (byte_lo s.divide_result, s)
      else if adr == 0x4215
      then (byte_hi s.divide_result, s)
      else if adr == 0x4216
      then (byte_lo s.multiply_result, s)
      else if adr == 0x4217
      then (byte_hi s.multiply_result, s)
      else if (adr == 0x4016) || (adr == 0x4017)
      then (0x01, s)
      else if adr == 0x4218
      then (byte_lo (swap_input_bits s.input1), s)
      else if adr == 0x4219
      then (byte_hi (swap_input_bits s.input1), s)
      else if adr == 0x421a
      then (byte_lo (swap_input_bits s.input2), s)
      else if adr == 0x421b
      then (byte_hi (swap_input_bits s.input2), s)
      else (0, s)

module _ {S : Type 0} (devices : Devices S) where
  unfoldable pub write_enable : Snes S → ℕ → Snes S
  write_enable s v = record s {
    auto_joy_read = test_bit v 0;
    auto_joy_timer = if test_bit v 0 then s.auto_joy_timer else 0;
    h_irq_enabled = test_bit v 4;
    v_irq_enabled = test_bit v 5;
    nmi_enabled = test_bit v 7;
    in_irq = if not (test_bit v 4) && not (test_bit v 5) then false else s.in_irq;
  }

  unfoldable pub write_divisor : Snes S → ℕ → Snes S
  write_divisor s v =
      if v == 0
      then record s { divide_result = 0xffff; multiply_result = s.divide_a }
      else record s { divide_result = s.divide_a / v; multiply_result = s.divide_a % v }

  -- `snes_writeReg`
  unfoldable pub write_reg : Snes S → ℕ → ℕ → Snes S
  unfolding write_enable write_divisor start_dma
  write_reg s adr v =
      if adr == 0x4200
      then write_enable s v
      else if adr == 0x4201
      then (let s1 = if not (test_bit v 7) && s.ppu_latch then (devices.ppu_read s 0x37).1 else s in
          record s1 { ppu_latch = test_bit v 7 })
      else if adr == 0x4202
      then record s { multiply_a = v }
      else if adr == 0x4203
      then record s { multiply_result = s.multiply_a * v }
      else if adr == 0x4204
      then record s { divide_a = byte_hi s.divide_a * 2 ^ 8 + v }
      else if adr == 0x4205
      then record s { divide_a = byte_lo s.divide_a + v * 2 ^ 8 }
      else if adr == 0x4206
      then write_divisor s v
      else if adr == 0x4207
      then record s { h_timer = s.h_timer / 2 ^ 8 % 2 * 2 ^ 8 + v }
      else if adr == 0x4208
      then record s { h_timer = byte_lo s.h_timer + v % 2 * 2 ^ 8 }
      else if adr == 0x4209
      then record s { v_timer = s.v_timer / 2 ^ 8 % 2 * 2 ^ 8 + v }
      else if adr == 0x420a
      then record s { v_timer = byte_lo s.v_timer + v % 2 * 2 ^ 8 }
      else if adr == 0x420b
      then devices.general_dma s v
      else if adr == 0x420c
      then record s { dma = start_dma s.dma v true }
      else s

  -- `snes_readBBus`
  unfoldable pub read_b_bus : Snes S → ℕ → ℕ × Snes S
  read_b_bus s adr =
      if ltb adr 0x40
      then devices.ppu_read s adr
      else if ltb adr 0x80
      then devices.apu_read s (adr % 2 ^ 2)
      else if adr == 0x80
      then (s.ram s.ram_adr, record s { ram_adr = (s.ram_adr + 1) % 2 ^ 17 })
      else (0, s)

  -- `snes_writeBBus`
  unfoldable pub write_b_bus : Snes S → ℕ → ℕ → Snes S
  write_b_bus s adr v =
      if ltb adr 0x40
      then devices.ppu_write s adr v
      else if ltb adr 0x80
      then devices.apu_write s (0x2100 + adr) v
      else if adr == 0x80
      then record s {
        ram = update s.ram (s.ram_adr % 2 ^ 17) v;
        ram_adr = (s.ram_adr % 2 ^ 17 + 1) % 2 ^ 17;
      }
      else if adr == 0x81
      then record s { ram_adr = s.ram_adr / 2 ^ 8 % 2 ^ 9 * 2 ^ 8 + v }
      else if adr == 0x82
      then record s { ram_adr = s.ram_adr / 2 ^ 16 % 2 * 2 ^ 16 + v * 2 ^ 8 + s.ram_adr % 2 ^ 8 }
      else if adr == 0x83
      then record s { ram_adr = s.ram_adr % 2 ^ 16 + v % 2 * 2 ^ 16 }
      else s
