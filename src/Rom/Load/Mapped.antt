-- ===== src/Rom/Load/Mapped.antt =====
-- The cartridge that `snes_loadRom` (runner/src/snes/snes_other.c) leaves, seen through `cart_read` of
-- runner/src/snes/cart.c.
use snesrecomp.Base.{
  ℕ, zero, suc, ◌+◌, ◌-◌, ◌*◌, ◌%◌, ◌^◌, ◌<◌, ◌≤◌, ◌≡◌, ◌≢◌, refl, sym, ap, ◌∙◌, arith, List, some,
  get_or, length, leb, ltb, true, false, Bool-cases, ◌⊎◌, inl, inr, pos, le→leb, get_or-All,
  ℕ_discrete, get_or-take, ◌&&◌, ◌||◌, and_both, and_false, [], ◌∷◌, dec_le, ge→ltb, gt→leb,
  bit_and, bit_and_low, length-drop, ltb_int, test_bit, All, Option-cases,
}
use snesrecomp.Rom.Header.{CartHeader, blank_header, read_header, sizes_defined}
use snesrecomp.Rom.Expand.{expand}
use snesrecomp.Rom.Expand.Loop.{expand-fill}
use snesrecomp.Rom.Expand.Mirror.{fill}
use snesrecomp.Rom.Load.{
  tried, read_headers, used, chosen, image, ram_bytes, mapping_of, loaded, insert, load_rom,
  headers_defined,
}
use snesrecomp.Rom.Load.Choice.{chosen-NoneAbove}
use native.Mathlib.Nat.{mod-eq_of_lt}
use snesrecomp.Cart.{Cart, load, CartType, read, read_lorom, read_hirom}

-- Where the documents of the console place a byte of the image: 32 KB in the upper half of every
-- bank, or 64 KB in each.
unfoldable pub rom_offset : CartType → ℕ → ℕ → ℕ
rom_offset CartType.lorom bank adr = bank % 2 ^ 7 * 2 ^ 15 + (adr - 2 ^ 15)
rom_offset CartType.hirom bank adr = bank % 2 ^ 6 * 2 ^ 16 + adr
rom_offset CartType.no_type bank adr = 0

abbrev pub IsMapped : CartHeader → Type 0
IsMapped h = (h.cart_type ≡ 1) ⊎ (h.cart_type ≡ 2)

read_header-IsMapped :
    (bytes : List ℕ) (location : ℕ) (blank : CartHeader)
    → IsMapped (read_header bytes location blank)
unfolding read_header
read_header-IsMapped bytes location blank = elim (Bool-cases (ltb location 0x9000)) [
  | inl b ↦ rw (b) (inl refl)
  | inr b ↦ rw (b) (inr refl)
]

tried_long :
    (bytes : List ℕ) (least location : ℕ)
    → least ≤ length bytes
    → IsMapped (tried bytes least location)
unfolding tried
tried_long bytes least location h =
    rw (le→leb least (length bytes) h) (read_header-IsMapped bytes location blank_header)

tried_short :
    (bytes : List ℕ) (least location : ℕ)
    → length bytes < least
    → ltb_int (pos 0) (tried bytes least location).score ≡ false
unfolding tried
tried_short bytes least location h = rw (gt→leb least (length bytes) h) refl

-- A header that scores was read, and names one of the two maps.
abbrev IsScored-IsMapped : CartHeader → Type 0
IsScored-IsMapped h = ltb_int (pos 0) h.score ≡ true → IsMapped h

scored_long :
    (bytes : List ℕ) (least location : ℕ)
    → ltb_int (pos 0) (tried bytes least location).score ≡ true
    → least ≤ length bytes
scored_long bytes least location scored = elim (dec_le least (length bytes)) [
  | yes p ↦ p
  | no p ↦ absurd (cc (scored, tried_short bytes least location (omega arith)))
]

tried-IsMapped :
    (bytes : List ℕ) (least location : ℕ) → IsScored-IsMapped (tried bytes least location)
tried-IsMapped bytes least location scored =
    tried_long bytes least location (scored_long bytes least location scored)

-- Every header but the first lies in an image that is long enough for a copier's header too.
scored_later :
    (bytes : List ℕ) (u : ℕ)
    → 0 < u
    → u < 4
    → ltb_int (pos 0) (get_or (read_headers bytes) u blank_header).score ≡ true
    → 0x8200 ≤ length bytes
unfolding read_headers
scored_later bytes zero p h scored = absurd (omega arith)
scored_later bytes (suc zero) p h scored = scored_long bytes 0x8200 0x81c0 scored
scored_later bytes (suc (suc zero)) p h scored =
    omega (arith, scored_long bytes 0x10000 0xffc0 scored)
scored_later bytes (suc (suc (suc zero))) p h scored =
    omega (arith, scored_long bytes 0x10200 0x101c0 scored)
scored_later bytes (suc (suc (suc (suc u)))) p h scored = absurd (omega arith)

chosen-IsMapped : (bytes : List ℕ) → 0x8000 ≤ length bytes → IsMapped (chosen bytes)
unfolding chosen read_headers
chosen-IsMapped bytes h = elim (chosen-NoneAbove bytes) [
  | inl s ↦ rw (s.0) (tried_long bytes 0x8000 0x7fc0 h)
  | inr s ↦
      get_or-All IsScored-IsMapped (read_headers bytes) (used bytes) blank_header
        (
          tried-IsMapped bytes 0x8000 0x7fc0,
          (
            tried-IsMapped bytes 0x8200 0x81c0,
            (tried-IsMapped bytes 0x10000 0xffc0, (tried-IsMapped bytes 0x10200 0x101c0, tt)),
          ),
        )
        s.0 s.1.0
]

odd_pos : (u : ℕ) → test_bit u 0 ≡ true → 0 < u
odd_pos u h = ground arith

used_zero : (bytes : List ℕ) → length bytes < 0x8200 → used bytes ≡ 0
unfolding chosen
used_zero bytes short = elim (chosen-NoneAbove bytes) [
  | inl s ↦ s.0
  | inr s ↦ elim (ℕ_discrete (used bytes) 0) [
    | yes z ↦ z
    | no n ↦ absurd (omega (arith, scored_later bytes (used bytes) (omega arith) s.0 s.1.0))
  ]
]

-- An image with room for one header has that one and no copier's header.
pub chosen_only :
    (bytes : List ℕ)
    → 0x8000 ≤ length bytes
    → length bytes < 0x8200
    → (chosen bytes ≡ read_header bytes 0x7fc0 blank_header) × (image bytes ≡ bytes)
unfolding chosen image read_headers tried
chosen_only bytes long short =
    rw (used_zero bytes short, le→leb 0x8000 (length bytes) long) (refl, refl)

image-bounds :
    (bytes : List ℕ)
    → 0x8000 ≤ length bytes
    → (0x8000 ≤ length (image bytes)) × (length (image bytes) ≤ length bytes)
unfolding image chosen
image-bounds bytes h = elim (Bool-cases (test_bit (used bytes) 0)) [
  | inr b ↦ rw (b) (h, omega arith)
  | inl b ↦ rw (b) (elim (chosen-NoneAbove bytes) [
    | inl s ↦ absurd (omega (arith, s.0, odd_pos (used bytes) b))
    | inr s ↦
        let long = scored_later bytes (used bytes) (odd_pos (used bytes) b) s.0 s.1.0 in
        omega (arith, length-drop 0x200 bytes)
  ])
]

masked_small : (k i size : ℕ) → size ≡ 2 ^ k → i < size → bit_and i (size - 1) ≡ i
masked_small k i size e h =
    ap (λ t. bit_and i (t - 1)) e ∙ bit_and_low k i ∙ mod-eq_of_lt (omega arith)

read_lorom-offset :
    (c : Cart) (k bank adr : ℕ)
    → c.rom_size ≡ 2 ^ k
    → 0x8000 ≤ adr
    → adr < 0x10000
    → rom_offset CartType.lorom bank adr < c.rom_size
    → read_lorom c bank adr ≡ c.rom (rom_offset CartType.lorom bank adr)
unfolding rom_offset read_lorom
read_lorom-offset c k bank adr size low high inside =
    let place : bank % 2 ^ 7 * 2 ^ 15 + adr % 2 ^ 15 ≡ bank % 2 ^ 7 * 2 ^ 15 + (adr - 2 ^ 15) =
      omega arith in
    rw
      (
        place,
        ge→ltb adr 0x8000 low,
        le→leb 0x8000 adr low,
        and_false (leb 0x70 bank && ltb bank 0x7e || leb 0xf0 bank),
      )
      (ap c.rom (masked_small k (bank % 2 ^ 7 * 2 ^ 15 + (adr - 2 ^ 15)) c.rom_size size inside))

read_hirom-offset :
    (c : Cart) (k bank adr : ℕ)
    → c.rom_size ≡ 2 ^ k
    → 0x8000 ≤ adr
    → adr < 0x10000
    → rom_offset CartType.hirom bank adr < c.rom_size
    → read_hirom c bank adr ≡ some (c.rom (rom_offset CartType.hirom bank adr))
unfolding rom_offset read_hirom
read_hirom-offset c k bank adr size low high inside =
    rw
      (
        ge→ltb adr 0x8000 low,
        le→leb 0x8000 adr low,
        and_false (leb 0x6000 adr),
        and_false (ltb (bank % 2 ^ 7) 0x40),
      )
      (ap (λ i. some (c.rom i))
        (ap (λ i. bit_and i (c.rom_size - 1)) {x = bank % 2 ^ 7 % 2 ^ 6 * 2 ^ 16 + adr}
            {y = bank % 2 ^ 6 * 2 ^ 16 + adr} (omega arith)
          ∙ masked_small k (bank % 2 ^ 6 * 2 ^ 16 + adr) c.rom_size size inside))

-- Both maps read the byte at the offset.
read_mapped :
    (c : Cart) (t : CartType) (k bank adr : ℕ)
    → t ≢ CartType.no_type
    → c.cart_type ≡ t
    → c.rom_size ≡ 2 ^ k
    → 0x8000 ≤ adr
    → adr < 0x10000
    → rom_offset t bank adr < c.rom_size
    → read c bank adr ≡ some (c.rom (rom_offset t bank adr))
unfolding read
read_mapped c CartType.no_type k bank adr some_map same size low high inside =
    absurd (some_map refl)
read_mapped c CartType.lorom k bank adr some_map same size low high inside =
    rw (same, read_lorom-offset c k bank adr size low high inside) refl
read_mapped c CartType.hirom k bank adr some_map same size low high inside =
    rw (same, read_hirom-offset c k bank adr size low high inside) refl

mapping_of-some : (h : CartHeader) → IsMapped h → mapping_of h.cart_type ≢ CartType.no_type
unfolding mapping_of
mapping_of-some h (inl m) e = absurd (cc (ap mapping_of m, e))
mapping_of-some h (inr m) e = absurd (cc (ap mapping_of m, e))

mapped-supported : (h : CartHeader) → IsMapped h → ltb 2 h.cart_type ≡ false
mapped-supported h (inl m) = ge→ltb 2 h.cart_type (omega arith)
mapped-supported h (inr m) = ge→ltb 2 h.cart_type (omega arith)

abbrev mapped_cart : Cart → List ℕ → List ℕ → ℕ → Cart
mapped_cart cart bytes rom size =
    load cart (mapping_of (chosen bytes).cart_type) (λ i. get_or rom i 0) (length rom) size

insert_lem :
    (cart : Cart) (h : CartHeader) (rom : List ℕ) (size : ℕ)
    → ram_bytes h ≡ some size
    → insert cart h rom
      ≡ loaded (load cart (mapping_of h.cart_type) (λ i. get_or rom i 0) (length rom) size)
unfolding insert
insert_lem cart h rom size ram = rw (ram, insert) refl

load_rom-loaded :
    (cart : Cart) (bytes rom : List ℕ) (size : ℕ)
    → 0x8000 ≤ length bytes
    → headers_defined (read_headers bytes) ≡ true
    → ram_bytes (chosen bytes) ≡ some size
    → expand (image bytes) ≡ some rom
    → load_rom cart bytes ≡ loaded (mapped_cart cart bytes rom size)
unfolding load_rom
load_rom-loaded cart bytes rom size h shifts ram e =
    rw
      (
        ge→ltb (length bytes) 0x8000 h,
        shifts,
        mapped-supported (chosen bytes) (chosen-IsMapped bytes h),
        e,
      )
      (insert_lem cart (chosen bytes) rom size ram)

abbrev HasRam : CartHeader → Type 0
HasRam h = (n : ℕ) × (ram_bytes h ≡ some n)

defined-HasRam : (h : CartHeader) → sizes_defined h ≡ true → HasRam h
unfolding ram_bytes
defined-HasRam h e = elim (Option-cases h.ram_size) [
  | inl missing ↦ absurd (ground (arith, missing))
  | inr (n, present) ↦ elim (Bool-cases (ltb 0 h.chips)) [
    | inl b ↦ (n, rw (b) present)
    | inr b ↦ (0, rw (b) refl)
  ]
]

headers_defined-All :
    (hs : List CartHeader) → headers_defined hs ≡ true → All (λ h. sizes_defined h ≡ true) hs
unfolding headers_defined
headers_defined-All [] e = tt
headers_defined-All (h ∷ hs) e =
    let p = and_both (sizes_defined h) (headers_defined hs) e in (p.0, headers_defined-All hs p.1)

used-bounds : (bytes : List ℕ) → used bytes < 4
used-bounds bytes = elim (chosen-NoneAbove bytes) [ inl s ↦ omega (arith, s.0) | inr s ↦ s.0 ]

chosen-HasRam :
    (bytes : List ℕ) → headers_defined (read_headers bytes) ≡ true → HasRam (chosen bytes)
chosen-HasRam bytes shifts = defined-HasRam (chosen bytes) (
    unfold chosen read_headers in
    get_or-All (λ h. sizes_defined h ≡ true) (read_headers bytes) (used bytes) blank_header
      (headers_defined-All (read_headers bytes) shifts) (used-bounds bytes))

-- An image of 0x8000 to 2 ^ 30 bytes, in whose headers that are tried every size is one that C
-- defines, is loaded; and `cart_read` at the upper half of a bank then gives the byte of the image,
-- less a copier's header, that the map of the cartridge places there, wherever the image has one.
pub load_rom-read :
    (cart : Cart) (bytes : List ℕ) (bank adr : ℕ)
    → 0x8000 ≤ length bytes
    → length bytes ≤ 2 ^ 30
    → headers_defined (read_headers bytes) ≡ true
    → 0x8000 ≤ adr
    → adr < 0x10000
    → rom_offset (mapping_of (chosen bytes).cart_type) bank adr < length (image bytes)
    → (c : Cart) × ((load_rom cart bytes ≡ loaded c)
        × (read c bank adr
            ≡ some (
                get_or
                  (image bytes)
                  (rom_offset (mapping_of (chosen bytes).cart_type) bank adr)
                  0)))
unfolding load
load_rom-read cart bytes bank adr h top shifts low high inside =
    let (size, ram) = chosen-HasRam bytes shifts in
    let limits = image-bounds bytes h in
    let s = expand-fill (image bytes) (omega arith) (omega arith) in
    let rom = fill s.0 (image bytes) in
    let t = mapping_of (chosen bytes).cart_type in
    let c = mapped_cart cart bytes rom size in
    let i = rom_offset t bank adr in
    let same : get_or rom i 0 ≡ get_or (image bytes) i 0 =
      sym (get_or-take rom (length (image bytes)) i 0 inside)
      ∙ ap (λ xs. get_or xs i 0) s.1.1.1.0 in
    (
      c,
      (
        load_rom-loaded cart bytes rom size h shifts ram s.1.0,
        read_mapped c t s.0 bank adr (mapping_of-some (chosen bytes) (chosen-IsMapped bytes h)) refl
              s.1.1.0 low high (omega (arith, s.1.1.0, s.1.1.1.1.0))
            ∙ ap some same,
      ),
    )
