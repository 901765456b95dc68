-- ===== src/Snes/ABus.antt =====
-- The A bus, `snes_read` and `snes_write`, through which DMA reaches memory, against the bus of the
-- compiled code.
pub mod Quiet
use snesrecomp.Base.{
  ℕ, ◌+◌, ◌*◌, ◌/◌, ◌%◌, ◌^◌, ◌<◌, ◌≡◌, Bool, ◌&&◌, ◌||◌, Option, some, ltb, leb, ◌==◌,
  if◌then◌else◌, update, arith,
}
use snesrecomp.Bus.Map.{ram_offset}
use snesrecomp.Bus.Access.{addr24}
use snesrecomp.Cart.{Cart}
use snesrecomp.Dma.{Dma}
use snesrecomp.Snes.{Snes, Devices, read_reg, write_reg, read_b_bus, write_b_bus}

-- Banks $00-$3F and $80-$BF.
abbrev pub is_system_bank : ℕ → Bool
is_system_bank bank = ltb bank 0x40 || (leb 0x80 bank && ltb bank 0xc0)

abbrev pub within : ℕ → ℕ → ℕ → Bool
within lo hi adr = leb lo adr && ltb adr hi

module _ {S : Type 0} (devices : Devices S) where
  abbrev from_cart : Snes S → ℕ → ℕ → Option ℕ × Snes S
  from_cart s bank adr = (snesrecomp.Cart.read s.cart bank adr, s)

  abbrev value : ℕ × Snes S → Option ℕ × Snes S
  value r = (some r.0, r.1)

  -- `snes_read` of a system bank, above the WRAM mirror.
  unfoldable pub read_system : Snes S → ℕ → ℕ → Option ℕ × Snes S
  read_system s bank adr =
      if within 0x2100 0x2200 adr
      then value (read_b_bus devices s (adr % 2 ^ 8))
      else if (adr == 0x4016) || (adr == 0x4017)
      then (some 0, s)
      else if within 0x4200 0x4220 adr
      then value (read_reg s adr)
      else if within 0x4300 0x4380 adr
      then (some (snesrecomp.Dma.Registers.read s.dma adr), s)
      else from_cart s bank adr

  -- `snes_read`; `none` is a failed assertion of the cartridge.
  unfoldable pub read_at : Snes S → ℕ → ℕ → Option ℕ × Snes S
  read_at s bank adr =
      if (bank == 0x7e) || (bank == 0x7f)
      then (some (s.ram (bank % 2 * 2 ^ 16 + adr)), s)
      else if is_system_bank bank
      then (if ltb adr 0x2000 then (some (s.ram adr), s) else read_system s bank adr)
      else from_cart s bank adr

  unfoldable pub read_a_bus : Snes S → ℕ → Option ℕ × Snes S
  read_a_bus s adr24 = read_at s (adr24 / 2 ^ 16 % 2 ^ 8) (adr24 % 2 ^ 16)

  -- The stores of `snes_write` to a system bank; the ranges are disjoint.
  unfoldable pub write_system : Snes S → ℕ → ℕ → Snes S
  write_system s adr v =
      if ltb adr 0x2000
      then record s { ram = update s.ram adr v }
      else if within 0x2100 0x2200 adr
      then write_b_bus devices s (adr % 2 ^ 8) v
      else if within 0x4200 0x4220 adr
      then write_reg devices s adr v
      else if within 0x4300 0x4380 adr
      then record s { dma = snesrecomp.Dma.Registers.write s.dma adr v }
      else s

  -- `snes_write`: every store also goes to the cartridge.
  unfoldable pub write_at : Snes S → ℕ → ℕ → ℕ → Snes S
  unfolding write_system
  write_at s bank adr v =
      let s1 =
        if (bank == 0x7e) || (bank == 0x7f)
        then record s { ram = update s.ram (bank % 2 * 2 ^ 16 + adr) v }
        else s in
      let s2 = if is_system_bank bank then write_system s1 adr v else s1 in
      record s2 { cart = snesrecomp.Cart.write s2.cart bank adr v }

  unfoldable pub write_a_bus : Snes S → ℕ → ℕ → Snes S
  write_a_bus s adr24 v = write_at s (adr24 / 2 ^ 16 % 2 ^ 8) (adr24 % 2 ^ 16) v

  bank_of : (bank adr : ℕ) → bank < 2 ^ 8 → adr < 2 ^ 16 → addr24 bank adr / 2 ^ 16 % 2 ^ 8 ≡ bank
  bank_of bank adr hb ha = omega arith

  adr_of : (bank adr : ℕ) → adr < 2 ^ 16 → addr24 bank adr % 2 ^ 16 ≡ adr
  adr_of bank adr ha = omega arith

  read_at-ram_offset :
      (s : Snes S) (bank adr off : ℕ)
      → ram_offset bank adr ≡ some off
      → read_at s bank adr ≡ (some (s.ram off), s)
  unfolding read_at ram_offset
  read_at-ram_offset s bank adr off e = ground arith

  -- A store to WRAM does not reach the battery RAM.
  cart-ram_offset :
      (c : Cart) (bank adr v off : ℕ)
      → ram_offset bank adr ≡ some off
      → snesrecomp.Cart.write c bank adr v ≡ c
  unfolding snesrecomp.Cart.write ram_offset
  cart-ram_offset c bank adr v off e = ground arith

  write_at-ram_offset :
      (s : Snes S) (bank adr v off : ℕ)
      → ram_offset bank adr ≡ some off
      → write_at s bank adr v ≡ record s { ram = update s.ram off v }
  unfolding write_at ram_offset
  write_at-ram_offset s bank adr v off e = ground (arith, cart-ram_offset s.cart bank adr v off e)

  -- DMA and the compiled code see the same WRAM: at every address of WRAM, mirrors included, a
  -- read of the A bus gives the byte at the offset that the bus of the compiled code uses, and a
  -- store changes that byte and nothing else, the cartridge included.
  pub a_bus-ram_offset :
      (s : Snes S) (bank adr v off : ℕ)
      → bank < 2 ^ 8
      → adr < 2 ^ 16
      → ram_offset bank adr ≡ some off
      → (read_a_bus s (addr24 bank adr) ≡ (some (s.ram off), s))
        × (write_a_bus s (addr24 bank adr) v ≡ record s { ram = update s.ram off v })
  a_bus-ram_offset s bank adr v off hb ha e =
      unfold read_a_bus write_a_bus in
      (
        rw (bank_of bank adr hb ha, adr_of bank adr ha) (read_at-ram_offset s bank adr off e),
        rw (bank_of bank adr hb ha, adr_of bank adr ha) (write_at-ram_offset s bank adr v off e),
      )
