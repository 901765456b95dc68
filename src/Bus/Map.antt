-- ===== src/Bus/Map.antt =====
-- `cpu_ram_offset`, `is_hw_reg`, `cpu_sram_offset` and `RomPtr`: which part of the machine a
-- 24-bit address names, and at which offset. `none` is the C result -1.
pub mod Regions
use snesrecomp.Base.{
  ℕ, ◌+◌, ◌-◌, ◌*◌, ◌/◌, ◌%◌, ◌^◌, Bool, true, false, ◌&&◌, ◌||◌, not, Option, none, some, ltb, leb,
  ◌==◌, if◌then◌else◌, bit_and, bit_or,
}

-- Banks $00-$3F and $80-$BF.
abbrev pub low_bank : ℕ → Bool
low_bank bank = leb bank 0x3f || (leb 0x80 bank && leb bank 0xbf)

unfoldable pub ram_offset : ℕ → ℕ → Option ℕ
ram_offset bank addr =
    if bank == 0x7e
    then some addr
    else if bank == 0x7f
    then some (0x10000 + addr)
    else if ltb addr 0x2000 && low_bank bank
    then some addr
    else none

unfoldable pub is_hw_reg : ℕ → ℕ → Bool
is_hw_reg bank addr =
    if ltb addr 0x2000 || leb 0x6000 addr
    then false
    else if leb bank 0x3f
    then true
    else if leb 0x80 bank && leb bank 0xbf
    then true
    else false

-- Banks $70-$7D and $F0-$FD.
abbrev pub lorom_sram_bank : ℕ → Bool
lorom_sram_bank bank = (leb 0x70 bank && ltb bank 0x7e) || (leb 0xf0 bank && ltb bank 0xfe)

-- The first two arguments are `g_sram != NULL` and `g_sram_size`.
unfoldable pub sram_offset : Bool → ℕ → ℕ → ℕ → Option ℕ
sram_offset present size bank addr =
    if size == 0 || not present
    then none
    else if lorom_sram_bank bank && ltb addr 0x8000
    then some (bit_and (bit_or (bank % 2 ^ 4 * 2 ^ 15) addr) (size - 1))
    else if (ltb bank 0x40 || (leb 0x80 bank && ltb bank 0xc0))
        && (leb 0x6000 addr && ltb addr 0x8000)
    then some (bit_and (bit_or (bank % 2 ^ 6 * 2 ^ 13) (addr % 2 ^ 13)) (size - 1))
    else none

-- `RomPtr`: the size of the image, or 0x80000 where there is no cart or its size is 0.
unfoldable pub rom_size_of : Option ℕ → ℕ
rom_size_of none = 0x80000
rom_size_of (some size) = if size == 0 then 0x80000 else size

-- The index into `g_rom` of a 24-bit address.
unfoldable pub rom_index : Option ℕ → ℕ → ℕ
unfolding rom_size_of
rom_index cart addr24 = bit_or (addr24 / 2 ^ 16 * 2 ^ 15) (addr24 % 2 ^ 15) % rom_size_of cart

-- The addresses for which `RomPtr` raises `g_fail`.
unfoldable pub rom_invalid : ℕ → Bool
rom_invalid addr24 =
    let bank = addr24 / 2 ^ 16 % 2 ^ 8 in
    let lo = addr24 % 2 ^ 16 in
    (bank == 0x7e) || ((bank == 0x7f) || not (leb 0x8000 lo || leb 0x40 (bank % 2 ^ 7)))
