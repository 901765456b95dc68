-- ===== src/Rom/Expand/Loop.antt =====
-- The loops of `snes_loadRom`, runner/src/snes/snes_other.c: they end, at the least size that fits,
-- with the filled window.
use snesrecomp.Base.{
  ℕ, zero, suc, ◌+◌, ◌-◌, ◌*◌, ◌/◌, ◌%◌, ◌^◌, ◌<◌, ◌≤◌, ◌≡◌, ◌≢◌, refl, sym, ap, arith, List, some,
  bit_and, length, take, dec_lt, dec_le, ℕ_discrete, le→leb, gt→leb, ==_ne, ==_refl, !=_ne,
  shift_suc, ◌⊎◌, inl, inr,
}
use snesrecomp.Rom.Expand.{widen, mirror_step, mirror_loop, new_length, expand}
use snesrecomp.Rom.Expand.Mirror.{fill, fill_full, length-fill, fill-prefix}
use snesrecomp.Rom.Expand.Mirror.Widen.{and_power, room_above, length-widen, fill-widen}
use native.Mathlib.Nat.{pow-suc, one-le-pow, add-mul, mul-le-mul_right}

mirror_step-even :
    (j m : ℕ) (xs : List ℕ) → length xs ≡ m * 2 ^ j → m % 2 ≡ 0 → mirror_step (2 ^ j) xs ≡ xs
unfolding mirror_step
mirror_step-even j m xs len even =
    let masked : bit_and (length xs) (2 ^ j) ≡ 0 =
      omega (arith, ap (λ t. bit_and t (2 ^ j)) len, and_power j m, ap (λ t. t * 2 ^ j) even) in
    rw (masked) refl

mirror_step-odd :
    (j m : ℕ) (xs : List ℕ)
    → length xs ≡ m * 2 ^ j
    → m % 2 ≡ 1
    → mirror_step (2 ^ j) xs ≡ widen xs (2 ^ j)
unfolding mirror_step
mirror_step-odd j m xs len odd =
    let nonzero : bit_and (length xs) (2 ^ j) ≢ 0 = λ e. omega (
      arith,
      ap (λ t. bit_and t (2 ^ j)) len,
      and_power j m,
      ap (λ t. t * 2 ^ j) odd,
      one-le-pow j 2 (omega arith),
    ) in
    rw (!=_ne (bit_and (length xs) (2 ^ j)) 0 nonzero) refl

round_even : (p m : ℕ) → m % 2 ≡ 0 → 2 * ((m + 1) / 2 * p) ≡ m * p
round_even p m even = grind (arith, ap (λ t. t * p) {x = 2 * ((m + 1) / 2)} {y = m} (omega arith))

round_odd : (p m : ℕ) → m % 2 ≡ 1 → 2 * ((m + 1) / 2 * p) ≡ m * p + p
round_odd p m odd =
    grind (arith, ap (λ t. t * p) {x = 2 * ((m + 1) / 2)} {y = m + 1} (omega arith), add-mul m 1 p)

-- The turn rounds the length up to a multiple of the next power of two, and keeps the window.
mirror_step-fill :
    (k j m : ℕ) (xs : List ℕ)
    → j < k
    → length xs ≡ m * 2 ^ j
    → 0 < m
    → length xs ≤ 2 ^ k
    → (length (mirror_step (2 ^ j) xs) ≡ (m + 1) / 2 * 2 ^ suc j)
      × (length (mirror_step (2 ^ j) xs) ≤ 2 ^ k)
      × (fill k (mirror_step (2 ^ j) xs) ≡ fill k xs)
mirror_step-fill k j m xs below len pos h = elim (ℕ_discrete (m % 2) 0) [
  | yes even ↦
      rw (mirror_step-even j m xs len even)
        (omega (arith, shift_suc ((m + 1) / 2) j, round_even (2 ^ j) m even), h, refl)
  | no odd ↦
      let wide =
        length-widen (2 ^ j) xs (omega (arith, mul-le-mul_right {m = 1} {n = m} (2 ^ j) pos)) in
      rw (mirror_step-odd j m xs len (omega arith)) (
        omega (arith, wide, shift_suc ((m + 1) / 2) j, round_odd (2 ^ j) m (omega arith)),
        omega (arith, wide, room_above j k m below (omega arith) (omega arith)),
        fill-widen k j m xs below len (omega arith) h,
      )
]

mirror_loop-fill :
    (fuel e j m k : ℕ) (xs : List ℕ)
    → k ≡ e + j
    → e ≤ fuel
    → length xs ≡ m * 2 ^ j
    → 0 < m
    → length xs ≤ 2 ^ k
    → mirror_loop fuel (2 ^ k) (2 ^ j) xs ≡ some (fill k xs)
unfolding mirror_loop
mirror_loop-fill zero e j m k xs ke hf len pos h =
    let full : length xs ≡ 2 ^ k = omega (
      arith,
      mul-le-mul_right {m = 1} {n = m} (2 ^ j) pos,
      ap (λ t. 2 ^ t) {x = j} {y = k} (omega arith),
    ) in
    rw (full, ==_refl (2 ^ k), fill_full k xs full) refl
mirror_loop-fill (suc fuel) e j m k xs ke hf len pos h = elim (ℕ_discrete (length xs) (2 ^ k)) [
  | yes p ↦ rw (p, ==_refl (2 ^ k), fill_full k xs p) refl
  | no p ↦
      let below : j < k = elim (dec_lt j k) [
        | yes q ↦ q
        | no q ↦ absurd (
            p (
              omega (
                arith,
                mul-le-mul_right {m = 1} {n = m} (2 ^ j) pos,
                ap (λ t. 2 ^ t) {x = j} {y = k} (omega arith),
              )))
      ] in
      let s = mirror_step-fill k j m xs below len pos h in
      rw (==_ne (length xs) (2 ^ k) p, sym (pow-suc 2 j), sym s.2)
        (mirror_loop-fill fuel (e - 1) (suc j) ((m + 1) / 2) k (mirror_step (2 ^ j) xs)
          (omega arith) (omega arith) s.0 (omega arith) s.1)
]

-- The first loop finds the least size that fits.
new_length-least :
    (fuel a top len : ℕ)
    → top ≡ fuel + a
    → len ≤ 2 ^ top
    → (k : ℕ) × ((new_length fuel len (2 ^ a) ≡ some (2 ^ k))
        × ((k ≤ top) × ((len ≤ 2 ^ k) × ((k ≡ a) ⊎ ((a < k) × (2 ^ (k - 1) < len))))))
unfolding new_length
new_length-least zero a top len e h =
    let fits : len ≤ 2 ^ a = omega (arith, ap (λ t. 2 ^ t) {x = top} {y = a} (omega arith)) in
    (a, (rw (le→leb len (2 ^ a) fits) refl, (omega arith, (fits, inl refl))))
new_length-least (suc fuel) a top len e h = elim (dec_le len (2 ^ a)) [
  | yes p ↦ (a, (rw (le→leb len (2 ^ a) p) refl, (omega arith, (p, inl refl))))
  | no p ↦
      let s = new_length-least fuel (suc a) top len (omega arith) h in
      (
        s.0,
        (
          rw (gt→leb len (2 ^ a) (omega arith), sym (pow-suc 2 a)) s.1.0,
          (
            s.1.1.0,
            (
              s.1.1.1.0,
              inr (elim s.1.1.1.1 [
                | inl q ↦ (
                  omega arith,
                  omega (arith, ap (λ t. 2 ^ t) {x = s.0 - 1} {y = a} (omega arith)),
                )
                | inr q ↦ (omega arith, q.1)
              ]),
            ),
          ),
        ),
      )
]

-- An image of 1 to 2 ^ 30 bytes is expanded: both loops of `snes_loadRom` end within their bounds,
-- the result is the window of 2 ^ k bytes filled with the image, so it has 2 ^ k bytes and begins
-- with the image, and 2 ^ k is 0x8000 or the least power of two above it that holds the image.
pub expand-fill :
    (bytes : List ℕ)
    → 0 < length bytes
    → length bytes ≤ 2 ^ 30
    → (k : ℕ) × ((expand bytes ≡ some (fill k bytes))
        × ((length (fill k bytes) ≡ 2 ^ k)
            × ((take (length bytes) (fill k bytes) ≡ bytes)
                × ((length bytes ≤ 2 ^ k)
                    × ((k ≡ 15) ⊎ ((15 < k) × (2 ^ (k - 1) < length bytes)))))))
unfolding expand
expand-fill bytes pos h =
    let s = new_length-least 15 15 30 (length bytes) refl h in
    let k = s.0 in
    let fits = s.1.1.1.0 in
    (
      k,
      (
        rw (s.1.0, expand)
            (mirror_loop-fill 31 k 0 (length bytes) k bytes (omega arith) (omega arith)
              (omega arith) pos fits),
        (length-fill k bytes pos fits, (fill-prefix k bytes pos fits, s.1.1.1)),
      ),
    )
