-- ===== src/Cart.antt =====
-- The cartridge, runner/src/snes/cart.c. An `assert(0)` is the result `none`.
pub mod Access
use snesrecomp.Base.{
  ℕ, ◌+◌, ◌-◌, ◌*◌, ◌%◌, ◌^◌, Bool, ◌&&◌, ◌||◌, Option, none, some, ltb, leb, if◌then◌else◌, Memory,
  update, bit_and,
}

-- The field `type`.
pub data CartType : Type 0 where
  no_type lorom hirom : CartType

pub record Cart : Type 0 where
  pub cart_type : CartType
  pub rom : Memory
  pub rom_size : ℕ
  pub ram : Memory
  pub ram_size : ℕ

-- `cart_load`
unfoldable pub load : Cart → CartType → Memory → ℕ → ℕ → Cart
load c type rom rom_size ram_size = record {
  cart_type = type;
  rom = rom;
  rom_size = rom_size;
  ram = λ i. 0;
  ram_size = ram_size;
}

-- `& (size - 1)`
abbrev pub masked : ℕ → ℕ → ℕ
masked i size = bit_and i (size - 1)

abbrev pub lorom_ram_index : ℕ → ℕ → ℕ → ℕ
lorom_ram_index size bank adr = masked (bank % 2 ^ 4 * 2 ^ 15 + adr) size

unfoldable pub read_lorom : Cart → ℕ → ℕ → ℕ
read_lorom c bank adr =
    let half = bank % 2 ^ 7 in
    if ((leb 0x70 bank && ltb bank 0x7e) || leb 0xf0 bank) && (ltb adr 0x8000 && ltb 0 c.ram_size)
    then c.ram (lorom_ram_index c.ram_size bank adr)
    else if leb 0x8000 adr || leb 0x40 half
    then c.rom (masked (half * 2 ^ 15 + adr % 2 ^ 15) c.rom_size)
    else 0

unfoldable pub write_lorom : Cart → ℕ → ℕ → ℕ → Cart
write_lorom c bank adr v =
    if ((leb 0x70 bank && ltb bank 0x7e) || ltb 0xf0 bank) && (ltb adr 0x8000 && ltb 0 c.ram_size)
    then record c { ram = update c.ram (lorom_ram_index c.ram_size bank adr) v }
    else c

abbrev pub in_hirom_ram : Cart → ℕ → ℕ → Bool
in_hirom_ram c half adr = ltb half 0x40 && (leb 0x6000 adr && (ltb adr 0x8000 && ltb 0 c.ram_size))

abbrev pub hirom_ram_index : ℕ → ℕ → ℕ → ℕ
hirom_ram_index size half adr = masked (half % 2 ^ 6 * 2 ^ 13 + adr % 2 ^ 13) size

unfoldable pub read_hirom : Cart → ℕ → ℕ → Option ℕ
read_hirom c bank adr =
    let half = bank % 2 ^ 7 in
    if in_hirom_ram c half adr
    then some (c.ram (hirom_ram_index c.ram_size half adr))
    else if leb 0x8000 adr || leb 0x40 half
    then some (c.rom (masked (half % 2 ^ 6 * 2 ^ 16 + adr) c.rom_size))
    else none

unfoldable pub write_hirom : Cart → ℕ → ℕ → ℕ → Cart
write_hirom c bank adr v =
    let half = bank % 2 ^ 7 in
    if in_hirom_ram c half adr
    then record c { ram = update c.ram (hirom_ram_index c.ram_size half adr) v }
    else c

-- `cart_read`
unfoldable pub read : Cart → ℕ → ℕ → Option ℕ
unfolding read_lorom read_hirom
read c bank adr = elim c.cart_type [
  | no_type ↦ none
  | lorom ↦ some (read_lorom c bank adr)
  | hirom ↦ read_hirom c bank adr
]

-- `cart_write`
unfoldable pub write : Cart → ℕ → ℕ → ℕ → Cart
unfolding write_lorom write_hirom
write c bank adr v = elim c.cart_type [
  | no_type ↦ c
  | lorom ↦ write_lorom c bank adr v
  | hirom ↦ write_hirom c bank adr v
]
