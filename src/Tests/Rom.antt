-- ===== src/Tests/Rom.antt =====
-- Images that are loaded: one with an odd length, and the smallest that is accepted, all zero.
use snesrecomp.Base.{
  ℕ, zero, suc, ◌-◌, ◌^◌, ◌<◌, ◌≤◌, ◌≡◌, refl, ap, arith, List, [], ◌∷◌, some, get_or, length, take,
  replicate, length-replicate, ◌⊎◌, true, pos, ltb_int,
}
use snesrecomp.Rom.Header.{blank_header, read_header, read_common, read_extended}
use snesrecomp.Rom.Expand.{mirror_loop, mirror_step, expand}
use snesrecomp.Rom.Expand.Mirror.{fill}
use snesrecomp.Rom.Expand.Loop.{expand-fill}
use snesrecomp.Rom.Load.{
  headers_defined, tried, read_headers, used, chosen, image, mapping_of, loaded, load_rom,
}
use snesrecomp.Rom.Load.Choice.{NoneAbove, chosen-NoneAbove}
use snesrecomp.Rom.Load.Mapped.{rom_offset, chosen_only, load_rom-read}
use snesrecomp.Cart.{Cart, CartType, read}

abbrev three_bytes : List ℕ
three_bytes = 1 ∷ 2 ∷ 3 ∷ []

-- The window of three bytes holds the last one twice.
three_widened : mirror_loop 31 4 1 three_bytes ≡ some (1 ∷ 2 ∷ 3 ∷ 3 ∷ [])
unfolding mirror_loop mirror_step
three_widened = refl

expand-fill_example :
    (k : ℕ) × ((expand three_bytes ≡ some (fill k three_bytes))
      × ((length (fill k three_bytes) ≡ 2 ^ k)
          × ((take 3 (fill k three_bytes) ≡ three_bytes)
              × ((3 ≤ 2 ^ k) × ((k ≡ 15) ⊎ ((15 < k) × (2 ^ (k - 1) < 3)))))))
expand-fill_example = expand-fill three_bytes (omega arith) (omega arith)

zero_image : List ℕ
zero_image = replicate 0x8000 0

length-zero_image : length zero_image ≡ 0x8000
unfolding zero_image
length-zero_image = length-replicate {A = ℕ} 0x8000 0

abbrev cart0 : Cart
cart0 = record {
  cart_type = CartType.no_type;
  rom = λ i. 0;
  rom_size = 0;
  ram = λ i. 0;
  ram_size = 0;
}

get_or-replicate : (n i : ℕ) → get_or {A = ℕ} (replicate n 0) i 0 ≡ 0
get_or-replicate zero i = refl
get_or-replicate (suc n) zero = refl
get_or-replicate (suc n) (suc i) = get_or-replicate n i

zero_at : (i : ℕ) → get_or zero_image i 0 ≡ 0
unfolding zero_image
zero_at i = get_or-replicate 0x8000 i

zero_image-header :
    (chosen zero_image ≡ read_header zero_image 0x7fc0 blank_header)
    × (image zero_image ≡ zero_image)
zero_image-header =
    chosen_only zero_image (omega (arith, length-zero_image)) (omega (arith, length-zero_image))

-- Only the first header is read.
zero_image-defined : headers_defined (read_headers zero_image) ≡ true
unfolding headers_defined read_headers tried read_header read_common read_extended
zero_image-defined =
    rw (length-zero_image)
      (rw (zero_at 0x7fd7, zero_at 0x7fd8, zero_at 0x7fda, zero_at 0x7fd4) refl)

zero_image-lorom : mapping_of (chosen zero_image).cart_type ≡ CartType.lorom
unfolding mapping_of read_header
zero_image-lorom = ap (λ h. mapping_of h.cart_type) zero_image-header.0

chosen-NoneAbove_example :
    ((used zero_image ≡ 0) × NoneAbove (pos 0) (read_headers zero_image))
    ⊎ ((used zero_image < 4)
        × ((ltb_int (pos 0) (chosen zero_image).score ≡ true)
            × NoneAbove (chosen zero_image).score (read_headers zero_image)))
chosen-NoneAbove_example = chosen-NoneAbove zero_image

zero_image-inside :
    rom_offset (mapping_of (chosen zero_image).cart_type) 0 0x9234 < length (image zero_image)
unfolding rom_offset
zero_image-inside = rw (zero_image-lorom, zero_image-header.1) (omega (arith, length-zero_image))

load_rom-read_example :
    (c : Cart) × ((load_rom cart0 zero_image ≡ loaded c)
      × (read c 0 0x9234
          ≡ some (
              get_or
                (image zero_image)
                (rom_offset (mapping_of (chosen zero_image).cart_type) 0 0x9234)
                0)))
load_rom-read_example =
    load_rom-read cart0 zero_image 0 0x9234 (omega (arith, length-zero_image))
      (omega (arith, length-zero_image)) zero_image-defined (omega arith) (omega arith)
      zero_image-inside
