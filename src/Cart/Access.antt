-- ===== src/Cart/Access.antt =====
-- The battery RAM of the cartridge through `cart_read` and `cart_write`.
use snesrecomp.Base.{
  ℕ, ◌+◌, ◌-◌, ◌*◌, ◌%◌, ◌^◌, ◌<◌, ◌≡◌, Option, none, some, ◌==◌, if◌then◌else◌, ltb, leb, ◌&&◌,
  ◌||◌, update, bit_and_le, arith, refl, ◌∙◌,
}
use snesrecomp.Cart.{
  Cart, lorom, hirom, no_type, read, write, in_hirom_ram, hirom_ram_index, lorom_ram_index,
}

-- The place in the battery RAM that both a load and a store of an address reach.
unfoldable pub ram_index : Cart → ℕ → ℕ → Option ℕ
ram_index c bank adr = elim c.cart_type [
  | no_type ↦ none
  | lorom ↦
      if ((leb 0x70 bank && ltb bank 0x7e) || ltb 0xf0 bank) && (ltb adr 0x8000 && ltb 0 c.ram_size)
      then some (lorom_ram_index c.ram_size bank adr)
      else none
  | hirom ↦
      if in_hirom_ram c (bank % 2 ^ 7) adr
      then some (hirom_ram_index c.ram_size (bank % 2 ^ 7) adr)
      else none
]

ram_index-lt : (c : Cart) (bank adr i : ℕ) → ram_index c bank adr ≡ some i → i < c.ram_size
unfolding ram_index
ram_index-lt c bank adr i e = ground (
  arith,
  bit_and_le (bank % 2 ^ 4 * 2 ^ 15 + adr) (c.ram_size - 1),
  bit_and_le (bank % 2 ^ 7 % 2 ^ 6 * 2 ^ 13 + adr % 2 ^ 13) (c.ram_size - 1),
)

ram_index-write :
    (c : Cart) (bank adr v i : ℕ)
    → ram_index c bank adr ≡ some i
    → write c bank adr v ≡ record c { ram = update c.ram i v }
unfolding ram_index write
ram_index-write c bank adr v i e = ground arith

ram_index-dropped :
    (c : Cart) (bank adr v : ℕ) → ram_index c bank adr ≡ none → write c bank adr v ≡ c
unfolding ram_index write
ram_index-dropped c bank adr v e = ground arith

ram_index-read :
    (c : Cart) (bank adr i : ℕ) → ram_index c bank adr ≡ some i → read c bank adr ≡ some (c.ram i)
unfolding ram_index read
ram_index-read c bank adr i e = ground arith

-- Where a store reaches the battery RAM at a place inside it, a load of any address of the same
-- place gives the stored byte, and a load of any address of another place is not disturbed; the
-- ROM and the sizes do not change. Any other store changes nothing.
pub read-write_ram :
    (c : Cart) (bank adr v : ℕ)
    → ((i : ℕ)
        → ram_index c bank adr ≡ some i
        → (i < c.ram_size)
          × ((bank' adr' j : ℕ)
              → ram_index c bank' adr' ≡ some j
              → read (write c bank adr v) bank' adr'
                ≡ (if j == i then some v else read c bank' adr')))
      × (ram_index c bank adr ≡ none → write c bank adr v ≡ c)
read-write_ram c bank adr v = (
  λ i e. (
    ram_index-lt c bank adr i e,
    λ bank' adr' j f.
        let stored = ram_index-write c bank adr v i e in
        let before = ram_index-read c bank' adr' j f in
        let after =
          ram_index-read (record c { ram = update c.ram i v }) bank' adr' j
            (same c bank' adr' v i ∙ f) in
        rw (stored, after, before) (ground arith),
  ),
  λ e. ram_index-dropped c bank adr v e,
)
  where
    same :
        (c : Cart) (bank adr v i : ℕ)
        → ram_index (record c { ram = update c.ram i v }) bank adr ≡ ram_index c bank adr
    same c bank adr v i = unfold ram_index in refl

-- On a LoROM cartridge with battery RAM bank $F0 is read as its mirror, bank $70, but a store to
-- it is dropped, where a store to bank $70 is kept.
pub lorom_f0_dropped :
    (c : Cart) (adr v : ℕ)
    → c.cart_type ≡ lorom
    → 0 < c.ram_size
    → adr < 0x8000
    → (write c 0xf0 adr v ≡ c)
      × (read c 0xf0 adr ≡ read c 0x70 adr)
      × (read (write c 0x70 adr v) 0xf0 adr ≡ some v)
unfolding write read
lorom_f0_dropped c adr v t h g = (ground arith, ground arith, ground arith)
