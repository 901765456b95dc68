-- ===== src/Frame/Registers.antt =====
-- `WriteReg`, `ReadReg` and their words, runner/src/common_rtl.c: the registers as compiled code
-- reaches them. The debug server only observes, and has no part.
pub mod OnBus
use snesrecomp.Base.{
  ℕ, ◌+◌, ◌%◌, ◌^◌, ◌&&◌, ◌||◌, Option, none, some, leb, ◌==◌, if◌then◌else◌, Memory, update, word,
  byte_lo, byte_hi, u16,
}
use snesrecomp.Msu.{Msu, msu1_enabled, msu1_read, msu1_write}
use snesrecomp.Msu.Files.{Disk}
use snesrecomp.Snes.{Snes, Devices, read_reg, write_reg, read_b_bus, write_b_bus}
use snesrecomp.Snes.ABus.{within, read_a_bus}
use snesrecomp.Bus.Access.{Machine, Registers}

-- The globals behind the registers.
pub record Rtl (S : Type 0) : Type 0 where
  pub snes : Snes S
  pub msu : Msu
  pub last_hdmaen : ℕ
  pub memsel : ℕ

-- What the words reach in the other devices: the catch-up of the APU and its output ports, and the
-- memory of the PPU with its pointer.
pub record Ports (S : Type 0) : Type 0 where
  pub catch_up : Snes S → Snes S
  pub out_port : Snes S → ℕ → ℕ
  pub vram : S → Memory
  pub vram_pointer : S → ℕ
  pub vram_increment : S → ℕ
  pub set_vram : S → Memory → ℕ → S

abbrev byte_or_zero : Option ℕ → ℕ
byte_or_zero none = 0
byte_or_zero (some v) = v

module _ {S : Type 0} where
  abbrev pub set_snes : Rtl S → Snes S → Rtl S
  set_snes r s = record r { snes = s }

  abbrev pub with_value : Rtl S → ℕ × Snes S → ℕ × Rtl S
  with_value r read = (read.0, set_snes r read.1)

  -- `g_snes->ram` is `g_ram`: the registers see the memory of the machine.
  abbrev pub attach : Machine (Rtl S) → Rtl S
  attach m = record m.dev { snes = record m.dev.snes { ram = m.ram } }

  abbrev pub detach : Machine (Rtl S) → Rtl S → Machine (Rtl S)
  detach m r = record m { dev = r; ram = r.snes.ram }

module _ {S : Type 0} (devices : Devices S) (ports : Ports S) (disk : Disk) where
  -- The stores to $4200-$421F.
  unfoldable pub store_internal : Rtl S → ℕ → ℕ → Rtl S
  store_internal r reg v =
      let r1 = if reg == 0x420c then record r { last_hdmaen = v } else r in
      let r2 = if reg == 0x420d then record r1 { memsel = v % 2 } else r1 in
      set_snes r2 (write_reg devices r2.snes reg v)

  -- `WriteReg`
  unfoldable pub store_reg : Rtl S → ℕ → ℕ → Rtl S
  unfolding store_internal
  store_reg r reg v =
      if within 0x2000 0x2008 reg
      then (if msu1_enabled r.msu then record r { msu = msu1_write disk r.msu reg v } else r)
      else if within 0x2100 0x2140 reg
      then set_snes r (devices.ppu_write r.snes (reg % 2 ^ 8) v)
      else if within 0x2140 0x2180 reg
      then set_snes r (devices.apu_write r.snes reg v)
      else if within 0x2180 0x2184 reg
      then set_snes r (write_b_bus devices r.snes (reg % 2 ^ 8) v)
      else if within 0x4200 0x4220 reg
      then store_internal r reg v
      else if within 0x4300 0x4380 reg
      then set_snes r (record r.snes { dma = snesrecomp.Dma.Registers.write r.snes.dma reg v })
      else r

  -- `ReadReg`
  unfoldable pub load_reg : Rtl S → ℕ → ℕ × Rtl S
  load_reg r reg =
      if within 0x2000 0x2008 reg
      then (let read = msu1_read disk r.msu reg in
          if msu1_enabled r.msu then (read.0, record r { msu = read.1 }) else (0, r))
      else if within 0x2100 0x2140 reg
      then with_value r (devices.ppu_read r.snes (reg % 2 ^ 8))
      else if within 0x2140 0x2180 reg
      then (let read = read_a_bus devices r.snes reg in (byte_or_zero read.0, set_snes r read.1))
      else if reg == 0x2180
      then with_value r (read_b_bus devices r.snes (reg % 2 ^ 8))
      else if (reg == 0x4016) || (reg == 0x4017)
      then with_value r (read_reg r.snes reg)
      else if within 0x4200 0x4220 reg
      then with_value r (read_reg r.snes reg)
      else if within 0x4300 0x4380 reg
      then (snesrecomp.Dma.Registers.read r.snes.dma reg, r)
      else (0, r)

  -- `ReadRegWord`
  unfoldable pub load_reg_word : Rtl S → ℕ → ℕ × Rtl S
  unfolding load_reg
  load_reg_word r reg =
      if leb 0x2140 reg && leb reg 0x217f
      then (let s = ports.catch_up r.snes in
          (word (ports.out_port s (reg % 4)) (ports.out_port s ((reg + 1) % 4)), set_snes r s))
      else (let lo = load_reg r reg in
          let hi = load_reg lo.1 (u16 (reg + 1)) in (word lo.0 hi.0, hi.1))

  -- `WriteVramWord`
  unfoldable pub write_vram_word : Snes S → ℕ → Snes S
  write_vram_word s v =
      let p = ports.vram_pointer s.dev in
      record s {
        dev =
            ports.set_vram s.dev (update (ports.vram s.dev) (p % 2 ^ 15) v)
              (u16 (p + ports.vram_increment s.dev));
      }

  -- `WriteRegWord`
  unfoldable pub store_reg_word : Rtl S → ℕ → ℕ → Rtl S
  unfolding store_reg write_vram_word
  store_reg_word r reg v =
      if reg == 0x2118
      then set_snes r (write_vram_word r.snes v)
      else if leb 0x2140 reg && leb reg 0x217f
      then store_reg (store_reg r (u16 (reg + 1)) (byte_hi v)) reg (byte_lo v)
      else store_reg (store_reg r reg (byte_lo v)) (u16 (reg + 1)) (byte_hi v)

  -- The registers that the CPU bus of the compiled code calls.
  unfoldable pub registers : Registers (Rtl S)
  unfolding store_reg load_reg load_reg_word store_reg_word
  registers = record {
    read_reg = λ m a. (let r = load_reg (attach m) a in (r.0, detach m r.1));
    write_reg = λ m a v. detach m (store_reg (attach m) a v);
    read_reg_word = λ m a. (let r = load_reg_word (attach m) a in (r.0, detach m r.1));
    write_reg_word = λ m a v. detach m (store_reg_word (attach m) a v);
  }
