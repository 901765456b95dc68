-- ===== src/Rom/Expand/Mirror.antt =====
-- What the loop of `snes_loadRom` (runner/src/snes/snes_other.c) is for, said from above: in a window
-- of a power of two the address lines that the chip lacks are ignored, so the upper half is what the
-- image has there, filled in its turn, or the lower half again.
pub mod Widen
use snesrecomp.Base.{
  ℕ, zero, suc, ◌-◌, ◌^◌, ◌<◌, ◌≤◌, ◌≡◌, refl, sym, ap, ◌∙◌, arith, List, [], ◌∷◌, ◌++◌, length,
  take, drop, leb, if◌then◌else◌, dec_le, le→leb, gt→leb, length-append, length-take, length-drop,
  take-prefix, take_all,
}
use native.Mathlib.Nat.{pow-suc, one-le-pow}

-- A window of `2 ^ k` bytes.
unfoldable pub fill : ℕ → List ℕ → List ℕ
fill zero xs = xs
fill (suc k) xs =
    let half = fill k xs in
    let upper = fill k (drop (2 ^ k) xs) in
    if leb (length xs) (2 ^ k) then half ++ half else take (2 ^ k) xs ++ upper

take-drop : (n : ℕ) (xs : List ℕ) → take n xs ++ drop n xs ≡ xs
take-drop zero xs = refl
take-drop (suc n) [] = refl
take-drop (suc n) (x ∷ xs) = ap (λ t. x ∷ t) (take-drop n xs)

pub take-past :
    (n : ℕ) (ys zs : List ℕ) → length ys ≤ n → take n (ys ++ zs) ≡ ys ++ take (n - length ys) zs
take-past n [] zs h = ap (λ t. take t zs) {x = n} {y = n - 0} (omega arith)
take-past zero (y ∷ ys) zs h = absurd (omega arith)
take-past (suc n) (y ∷ ys) zs h =
    ap (λ t. y ∷ t) (take-past n ys zs (omega arith))
    ∙ ap (λ t. y ∷ (ys ++ take t zs)) {x = n - length ys} {y = suc n - suc (length ys)}
        (omega arith)

pub fill_low : (k : ℕ) (xs : List ℕ) → length xs ≤ 2 ^ k → fill (suc k) xs ≡ fill k xs ++ fill k xs
unfolding fill
fill_low k xs h = rw (le→leb (length xs) (2 ^ k) h) refl

pub fill_high :
    (k : ℕ) (xs : List ℕ)
    → 2 ^ k < length xs
    → fill (suc k) xs ≡ take (2 ^ k) xs ++ fill k (drop (2 ^ k) xs)
unfolding fill
fill_high k xs h = rw (gt→leb (length xs) (2 ^ k) h) refl

pub length-fill :
    (k : ℕ) (xs : List ℕ) → 0 < length xs → length xs ≤ 2 ^ k → length (fill k xs) ≡ 2 ^ k
unfolding fill
length-fill zero xs pos h = omega arith
length-fill (suc k) xs pos h = elim (dec_le (length xs) (2 ^ k)) [
  | yes p ↦
      rw (fill_low k xs p)
        (omega (arith, pow-suc 2 k, length-append (fill k xs) (fill k xs), length-fill k xs pos p))
  | no p ↦ rw (fill_high k xs (omega arith)) (
      omega (
        arith,
        pow-suc 2 k,
        length-append (take (2 ^ k) xs) (fill k (drop (2 ^ k) xs)),
        length-take (2 ^ k) xs (omega arith),
        length-drop (2 ^ k) xs,
        length-fill k (drop (2 ^ k) xs) (omega (arith, length-drop (2 ^ k) xs))
            (omega (arith, length-drop (2 ^ k) xs, pow-suc 2 k)),
      ))
]

-- The image itself stays in front.
pub fill-prefix :
    (k : ℕ) (xs : List ℕ) → 0 < length xs → length xs ≤ 2 ^ k → take (length xs) (fill k xs) ≡ xs
unfolding fill
fill-prefix zero xs pos h = take_all (length xs) xs (omega arith)
fill-prefix (suc k) xs pos h = elim (dec_le (length xs) (2 ^ k)) [
  | yes p ↦
      rw
        (
          fill_low k xs p,
          take-prefix (length xs) (fill k xs) (fill k xs) (omega (arith, length-fill k xs pos p)),
        )
        (fill-prefix k xs pos p)
  | no p ↦
      let upper = drop (2 ^ k) xs in
      let long : length upper ≡ length xs - 2 ^ k = length-drop (2 ^ k) xs in
      let low : length (take (2 ^ k) xs) ≡ 2 ^ k = length-take (2 ^ k) xs (omega arith) in
      rw
        (
          fill_high k xs (omega arith),
          take-past (length xs) (take (2 ^ k) xs) (fill k upper) (omega arith),
          low,
          sym long,
          fill-prefix k upper (omega arith) (omega (arith, pow-suc 2 k)),
        )
        (take-drop (2 ^ k) xs)
]

pub fill_full : (k : ℕ) (xs : List ℕ) → length xs ≡ 2 ^ k → fill k xs ≡ xs
unfolding fill
fill_full zero xs h = refl
fill_full (suc k) xs h =
    rw (fill_high k xs (omega (arith, pow-suc 2 k, one-le-pow k 2 (omega arith)))) (
      rw (fill_full k (drop (2 ^ k) xs) (omega (arith, pow-suc 2 k, length-drop (2 ^ k) xs)))
        (take-drop (2 ^ k) xs))

pub fill_half : (k : ℕ) (xs : List ℕ) → length xs ≡ 2 ^ k → fill (suc k) xs ≡ xs ++ xs
fill_half k xs h = rw (fill_low k xs (omega arith), fill_full k xs h) refl
