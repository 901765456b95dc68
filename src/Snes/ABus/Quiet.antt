-- ===== src/Snes/ABus/Quiet.antt =====
-- The buses of the console as a DMA run uses them: where the A bus does not reach the controller.
use snesrecomp.Base.{
  ℕ, ◌+◌, ◌%◌, ◌^◌, ◌<◌, ◌≤◌, ◌≡◌, false, Option, none, some, arith, Bool-cases, inl, inr, ◌⊎◌,
  ◌==◌, ◌||◌,
}
use snesrecomp.Dma.Transfer.{System, Port}
use snesrecomp.Dma.Cycles.{IsQuiet}
use snesrecomp.Snes.{Snes, Devices, read_b_bus, write_b_bus}
use snesrecomp.Snes.ABus.{
  is_system_bank, read_at, write_at, read_system, write_system, read_a_bus, write_a_bus, bank_of,
  adr_of,
}

-- A failed assertion of the cartridge has no byte.
abbrev byte_of : Option ℕ → ℕ
byte_of none = 0
byte_of (some v) = v

module _ {S : Type 0} where
  -- The controller that the transfer works on is the console's.
  abbrev pub attach : System (Snes S) → Snes S
  attach s = record s.bus { dma = s.dma }

  abbrev pub detach : System (Snes S) → Snes S → System (Snes S)
  detach s console = record s { dma = console.dma; bus = console }

-- A bank without registers, $40-$7F and $C0-$FF, or an address behind them.
abbrev pub IsPlain : ℕ → ℕ → Type 0
IsPlain bank adr = (bank < 2 ^ 8) × ((is_system_bank bank ≡ false) ⊎ (0x4380 ≤ adr))

module _ {S : Type 0} (devices : Devices S) where
  -- `snes_read`, `snes_write`, `snes_readBBus` and `snes_writeBBus`
  abbrev pub console_port : Port (Snes S)
  console_port = record {
    read = λ s a. (let r = read_a_bus devices (attach s) a in (byte_of r.0, detach s r.1));
    write = λ s a v. detach s (write_a_bus devices (attach s) a v);
    read_b_bus = λ s a. (let r = read_b_bus devices (attach s) a in (r.0, detach s r.1));
    write_b_bus = λ s a v. detach s (write_b_bus devices (attach s) a v);
  }

  -- The PPU and the APU do not reach the controller.
  pub record AreApart : Type 0 where
    pub ppu_read : (s : Snes S) (a : ℕ) → (devices.ppu_read s a).1.dma ≡ s.dma
    pub ppu_write : (s : Snes S) (a v : ℕ) → (devices.ppu_write s a v).dma ≡ s.dma
    pub apu_read : (s : Snes S) (a : ℕ) → (devices.apu_read s a).1.dma ≡ s.dma
    pub apu_write : (s : Snes S) (a v : ℕ) → (devices.apu_write s a v).dma ≡ s.dma

  read_system-behind :
      (s : Snes S) (bank adr : ℕ) → 0x4380 ≤ adr → (read_system devices s bank adr).1.dma ≡ s.dma
  unfolding read_system
  read_system-behind s bank adr h = ground arith

  write_system-behind :
      (s : Snes S) (adr v : ℕ) → 0x4380 ≤ adr → (write_system devices s adr v).dma ≡ s.dma
  unfolding write_system
  write_system-behind s adr v h = ground arith

  read_at-dma :
      (s : Snes S) (bank adr : ℕ)
      → (is_system_bank bank ≡ false) ⊎ (0x4380 ≤ adr)
      → (read_at devices s bank adr).1.dma ≡ s.dma
  unfolding read_at
  read_at-dma s bank adr (inl plain) = ground arith
  read_at-dma s bank adr (inr behind) = ground (arith, read_system-behind s bank adr behind)

  write_at-dma :
      (s : Snes S) (bank adr v : ℕ)
      → (is_system_bank bank ≡ false) ⊎ (0x4380 ≤ adr)
      → (write_at devices s bank adr v).dma ≡ s.dma
  unfolding write_at
  write_at-dma s bank adr v (inl plain) = ground arith
  write_at-dma s bank adr v (inr behind) = elim (Bool-cases ((bank == 0x7e) || (bank == 0x7f))) [
    | inl wram ↦ ground arith
    | inr other ↦ ground (arith, write_system-behind s adr v behind)
  ]

  read_b_bus-dma : AreApart → (s : Snes S) (a : ℕ) → (read_b_bus devices s a).1.dma ≡ s.dma
  unfolding read_b_bus
  read_b_bus-dma apart s a = ground (arith, apart.ppu_read s a, apart.apu_read s (a % 2 ^ 2))

  write_b_bus-dma : AreApart → (s : Snes S) (a v : ℕ) → (write_b_bus devices s a v).dma ≡ s.dma
  unfolding write_b_bus
  write_b_bus-dma apart s a v =
      ground (arith, apart.ppu_write s a v, apart.apu_write s (0x2100 + a) v)

  pub console_port-IsQuiet : AreApart → IsQuiet IsPlain console_port
  unfolding read_a_bus write_a_bus
  console_port-IsQuiet apart = (
    λ s bank a plain h.
        rw (bank_of devices bank a plain.0 h, adr_of devices bank a h)
          (read_at-dma (attach s) bank a plain.1),
    λ s bank a v plain h.
        rw (bank_of devices bank a plain.0 h, adr_of devices bank a h)
          (write_at-dma (attach s) bank a v plain.1),
    λ s a. read_b_bus-dma apart (attach s) a,
    λ s a v. write_b_bus-dma apart (attach s) a v,
  )
