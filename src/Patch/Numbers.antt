-- ===== src/Patch/Numbers.antt =====
-- The variable-length numbers of a patch, written as the format says and read by `BpsDecodeInt`.
use snesrecomp.Base.{
  ℕ, zero, suc, ◌+◌, ◌-◌, ◌*◌, ◌/◌, ◌%◌, ◌^◌, ◌<◌, ◌≤◌, ◌≡◌, ap, arith, bit_and, List, [], ◌∷◌,
  ◌++◌,
}
use snesrecomp.Base.{if◌then◌else◌, ltb, bit_and_low, dec_lt, length, All, IsByte, some}
use snesrecomp.Patch.{decode_loop, bps_decode_int}
use native.Mathlib.Nat.{pow-suc, add-mul}

-- Groups of seven bits, lowest first, each after the first counted from one; the last has its top
-- bit set. For a value below 128 ^ (k + 1).
unfoldable pub encoding : ℕ → ℕ → List ℕ
encoding zero v = (v % 128 + 128) ∷ []
encoding (suc k) v =
    let rest = encoding k (v / 128 - 1) in if ltb v 128 then (v + 128) ∷ [] else v % 128 ∷ rest

-- Ten groups hold every number of 64 bits.
unfoldable pub encode_int : ℕ → List ℕ
encode_int v = encoding 9 v

last_group :
    (v total shift : ℕ) (rest : List ℕ)
    → v < 128
    → total + v * shift < 2 ^ 64
    → decode_loop ((v + 128) ∷ rest) total shift ≡ some (total + v * shift, rest)
unfolding decode_loop
last_group v total shift rest h fits = grind (
  arith,
  bit_and_low 7 (v + 128),
  ap (λ t. t * shift) {x = bit_and (v + 128) 127} {y = v} (omega (arith, bit_and_low 7 (v + 128))),
)

inner_group :
    (g total shift : ℕ) (rest : List ℕ)
    → g < 128
    → total + (g + 128) * shift < 2 ^ 64
    → decode_loop (g ∷ rest) total shift
      ≡ decode_loop rest (total + (g + 128) * shift) (shift * 128)
unfolding decode_loop
inner_group g total shift rest h fits = grind (
  arith,
  add-mul g 128 shift,
  ap (λ t. t * shift) {x = bit_and g 127} {y = g} (omega (arith, bit_and_low 7 g)),
)

regroup : (r q s : ℕ) → (r + 128) * s + q * (s * 128) ≡ (r + 128 * (q + 1)) * s
regroup r q s = grind arith

-- The first group and the rest, both in place.
split_group :
    (w shift : ℕ) → 128 ≤ w → (w % 128 + 128) * shift + (w / 128 - 1) * (shift * 128) ≡ w * shift
split_group w shift h = omega (
  arith,
  regroup (w % 128) (w / 128 - 1) shift,
  ap (λ t. t * shift) {x = w % 128 + 128 * (w / 128 - 1 + 1)} {y = w} (omega arith),
)

-- `w` is what is still to be read, and it counts in units of `shift`.
decode_loop-encoding :
    (k w total shift : ℕ) (rest : List ℕ)
    → w < 128 ^ suc k
    → total + w * shift < 2 ^ 64
    → decode_loop (encoding k w ++ rest) total shift ≡ some (total + w * shift, rest)
unfolding encoding
decode_loop-encoding zero w total shift rest h fits = ground (
  arith,
  last_group (w % 128) total shift rest,
  ap (λ t. t * shift) {x = w % 128} {y = w} (omega arith),
)
decode_loop-encoding (suc k) w total shift rest h fits = elim (dec_lt w 128) [
  | yes p ↦ ground (arith, last_group w total shift rest p fits)
  | no p ↦ ground (
    arith,
    split_group w shift (omega arith),
    inner_group (w % 128) total shift (encoding k (w / 128 - 1) ++ rest),
    decode_loop-encoding k (w / 128 - 1) (total + (w % 128 + 128) * shift) (shift * 128) rest
        (omega (arith, pow-suc 128 (suc k))),
  )
]

-- `BpsDecodeInt` reads back every number of 64 bits and stops behind it.
pub bps_decode_int-encode_int :
    (v : ℕ) (rest : List ℕ) → v < 2 ^ 64 → bps_decode_int (encode_int v ++ rest) ≡ some (v, rest)
unfolding bps_decode_int encode_int
bps_decode_int-encode_int v rest h = grind (arith, decode_loop-encoding 9 v 0 1 rest (omega arith))

length-encoding : (k v : ℕ) → 0 < length (encoding k v)
unfolding encoding
length-encoding zero v = omega arith
length-encoding (suc k) v = ground arith

pub length-encode_int : (v : ℕ) → 0 < length (encode_int v)
unfolding encode_int
length-encode_int v = length-encoding 9 v

encoding-All : (k v : ℕ) → All IsByte (encoding k v)
unfolding encoding
encoding-All zero v = ground arith
encoding-All (suc k) v = ground (arith, encoding-All k (v / 128 - 1))

pub encode_int-All : (v : ℕ) → All IsByte (encode_int v)
unfolding encode_int
encode_int-All v = encoding-All 9 v
