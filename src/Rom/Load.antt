-- ===== src/Rom/Load.antt =====
-- `snes_loadRom`, runner/src/snes/snes_other.c: the headers that are tried, the one that is used and
-- the cartridge that is loaded.
pub mod Choice
pub mod Mapped
use snesrecomp.Base.{
  ℕ, zero, suc, List, [], ◌∷◌, Option, some, none, drop, get_or, length, ltb, leb, if◌then◌else◌,
  test_bit, ltb_int, pos, ℤ, Bool, true, ◌&&◌, not,
}
use snesrecomp.Rom.Header.{CartHeader, blank_header, read_header, sizes_defined}
use snesrecomp.Rom.Expand.{expand}
use snesrecomp.Cart.{Cart, CartType, no_type, lorom, hirom, load}

-- `if(length >= least) readHeader(data, length, location, &headers[i])`
unfoldable pub tried : List ℕ → ℕ → ℕ → CartHeader
tried bytes least location =
    if leb least (length bytes) then read_header bytes location blank_header else blank_header

-- `headers`
unfoldable pub read_headers : List ℕ → List CartHeader
unfolding tried
read_headers bytes =
    tried bytes 0x8000 0x7fc0
    ∷ tried bytes 0x8200 0x81c0
    ∷ tried bytes 0x10000 0xffc0
    ∷ tried bytes 0x10200 0x101c0
    ∷ []

-- The loop over the headers from index `i`, with `used` and `max`.
unfoldable pub pick : List CartHeader → ℕ → ℕ → ℤ → ℕ
pick [] i used max = used
pick (h ∷ hs) i used max =
    let better = ltb_int max h.score in
    pick hs (suc i) (if better then i else used) (if better then h.score else max)

-- `used`
unfoldable pub used : List ℕ → ℕ
unfolding read_headers pick
used bytes = pick (read_headers bytes) 0 0 (pos 0)

-- `headers[used]`
unfoldable pub chosen : List ℕ → CartHeader
unfolding read_headers used
chosen bytes = get_or (read_headers bytes) (used bytes) blank_header

-- `data` and `length` behind a copier's header, which the odd entries are for.
unfoldable pub image : List ℕ → List ℕ
unfolding used
image bytes = if test_bit (used bytes) 0 then drop 0x200 bytes else bytes

-- `headers[used].chips > 0 ? headers[used].ramSize : 0`
unfoldable pub ram_bytes : CartHeader → Option ℕ
ram_bytes h = if ltb 0 h.chips then h.ram_size else some 0

-- The field `type` of the cartridge.
unfoldable pub mapping_of : ℕ → CartType
mapping_of zero = no_type
mapping_of (suc zero) = lorom
mapping_of (suc (suc n)) = hirom

-- `refused` is the result `false`; in `undefined` the run has shifted by more than C defines.
pub data Loaded : Type 0 where
  refused undefined : Loaded
  loaded : Cart → Loaded

-- The shifts in every `readHeader` that runs are defined.
unfoldable pub headers_defined : List CartHeader → Bool
headers_defined [] = true
headers_defined (h ∷ hs) = sizes_defined h && headers_defined hs

-- `cart_load` with the buffer.
unfoldable pub insert : Cart → CartHeader → List ℕ → Loaded
unfolding ram_bytes mapping_of
insert cart h rom = elim (ram_bytes h) [
  | none ↦ undefined
  | some size ↦ loaded (load cart (mapping_of h.cart_type) (λ i. get_or rom i 0) (length rom) size)
]

-- `snes_loadRom`
unfoldable pub load_rom : Cart → List ℕ → Loaded
unfolding read_headers chosen image insert headers_defined
load_rom cart bytes =
    if ltb (length bytes) 0x8000
    then refused
    else if not (headers_defined (read_headers bytes))
    then undefined
    else if ltb 2 (chosen bytes).cart_type
    then refused
    else elim (expand (image bytes)) [
      | none ↦ undefined
      | some rom ↦ insert cart (chosen bytes) rom
    ]
