-- ===== src/Bus/Map/Regions.antt =====
-- What the address map promises: every offset lies inside its array, and no address belongs to
-- two of WRAM, the hardware registers and battery RAM.
use snesrecomp.Base.{
  ℕ, ◌-◌, ◌*◌, ◌%◌, ◌^◌, ◌<◌, ◌≡◌, Bool, true, Option, none, some, bit_or, bit_and_le, arith,
}
use snesrecomp.Bus.Map.{ram_offset, is_hw_reg, sram_offset, rom_size_of, rom_index}

-- A WRAM offset lies inside the 128 KB of `g_ram`.
pub ram_offset_bound :
    (bank addr : ℕ) {off : ℕ} → addr < 2 ^ 16 → ram_offset bank addr ≡ some off → off < 0x20000
unfolding ram_offset
ram_offset_bound bank addr h e = ground arith

-- A battery RAM offset lies inside `g_sram`, of whatever size.
pub sram_offset_bound :
    (present : Bool) (size bank addr : ℕ) {off : ℕ}
    → sram_offset present size bank addr ≡ some off
    → off < size
unfolding sram_offset
sram_offset_bound present size bank addr e = ground (
  arith,
  bit_and_le (bit_or (bank % 2 ^ 4 * 2 ^ 15) addr) (size - 1),
  bit_and_le (bit_or (bank % 2 ^ 6 * 2 ^ 13) (addr % 2 ^ 13)) (size - 1),
)

-- No address is claimed by two of WRAM, the register window and battery RAM, so the order of the
-- tests in `cpu_read8` and its siblings does not matter.
pub regions_disjoint :
    (present : Bool) (size bank addr : ℕ)
    → (is_hw_reg bank addr ≡ true
        → (ram_offset bank addr ≡ none) × (sram_offset present size bank addr ≡ none))
      × ((off : ℕ) → ram_offset bank addr ≡ some off → sram_offset present size bank addr ≡ none)
unfolding ram_offset is_hw_reg sram_offset
regions_disjoint present size bank addr = (λ h. (ground arith, ground arith), λ off h. ground arith)

-- The ROM index lies inside an image of the size that `RomPtr` divides by.
pub rom_index_bound : (cart : Option ℕ) (addr24 : ℕ) → rom_index cart addr24 < rom_size_of cart
unfolding rom_index rom_size_of
rom_index_bound none addr24 = omega arith
rom_index_bound (some size) addr24 = ground arith
