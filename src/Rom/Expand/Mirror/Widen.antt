-- ===== src/Rom/Expand/Mirror/Widen.antt =====
-- One turn of the loop of `snes_loadRom` (runner/src/snes/snes_other.c) against the filled window.
use snesrecomp.Base.{
  ℕ, zero, suc, ◌+◌, ◌-◌, ◌*◌, ◌%◌, ◌^◌, ◌<◌, ◌≤◌, ◌≡◌, refl, ◌≢◌, sym, ap, ◌∙◌, arith, List, ◌++◌,
  bit_and, length, take, drop, dec_lt, dec_le, shift_suc, bit_and_digit, bit_and_low, length-append,
  length-take, length-drop, take-prefix, drop-prefix, take_all, drop-drop,
}
use snesrecomp.Rom.Expand.{widen}
use native.Mathlib.Nat.{
  pow-suc, add-mul, one-le-pow, le_of_mul-le-mul_right, lt_of_mul-lt-mul_right, mul-le-mul_right,
}
use snesrecomp.Rom.Expand.Mirror.{fill, fill_low, fill_high, fill_full, fill_half}

-- A smaller power of two divides a larger one at least twice.
pow_split : (j k : ℕ) → j < k → (q : ℕ) × (2 ^ k ≡ 2 * q * 2 ^ j)
pow_split j zero h = absurd (omega arith)
pow_split j (suc k) h = elim (dec_lt j k) [
  | yes p ↦ let s = pow_split j k p in let q = s.0 in (2 * q, grind (arith, s.1, pow-suc 2 k))
  | no p ↦ (1, omega (arith, pow-suc 2 k, ap (λ t. 2 ^ t) {x = j} {y = k} (omega arith)))
]

-- `length & test` for a power of two that divides the length.
pub and_power : (j m : ℕ) → bit_and (m * 2 ^ j) (2 ^ j) ≡ m % 2 * 2 ^ j
and_power zero m = omega (arith, bit_and_low 1 m, bit_and_low 1 (m * 1))
and_power (suc j) m = ground (
  arith,
  bit_and_digit (m * 2 ^ suc j) (2 ^ suc j),
  shift_suc m j,
  shift_suc (m % 2) j,
  pow-suc 2 j,
  and_power j m,
)

pub length-widen :
    (test : ℕ) (xs : List ℕ) → test ≤ length xs → length (widen xs test) ≡ length xs + test
unfolding widen
length-widen test xs h = omega (
  arith,
  length-append xs (take test (drop (length xs - test) xs)),
  length-take test (drop (length xs - test) xs) (omega (arith, length-drop (length xs - test) xs)),
  length-drop (length xs - test) xs,
)

-- A block that starts below the copied bytes is widened as the whole is.
drop-widen :
    (n test : ℕ) (xs : List ℕ)
    → n + test ≤ length xs
    → drop n (widen xs test) ≡ widen (drop n xs) test
unfolding widen
drop-widen n test xs h =
    rw
      (
        drop-prefix n xs (take test (drop (length xs - test) xs)) (omega arith),
        length-drop n xs,
        drop-drop (length xs - n - test) n (length xs - test) xs (omega arith),
      )
      refl

take-widen : (n test : ℕ) (xs : List ℕ) → n ≤ length xs → take n (widen xs test) ≡ take n xs
unfolding widen
take-widen n test xs h = take-prefix n xs (take test (drop (length xs - test) xs)) h

widen_all : (xs : List ℕ) → widen xs (length xs) ≡ xs ++ xs
unfolding widen
widen_all xs =
    rw
      (
        ap (λ t. drop t xs) {x = length xs - length xs} {y = 0} (omega arith),
        take_all (length xs) xs (omega arith),
      )
      refl

-- What is left of a multiple of `p` below or above another is at least `p`.
next_multiple : (p m n : ℕ) → m * p < n * p → m * p + p ≤ n * p
next_multiple p m n h = grind (arith, mul-le-mul_right p (lt_of_mul-lt-mul_right p h))

sub_multiple : (p m n : ℕ) → n ≤ m → (m - n) * p ≡ m * p - n * p
sub_multiple p m n h =
    omega (arith, add-mul (m - n) n p, ap (λ t. t * p) {x = m - n + n} {y = m} (omega arith))

only_multiple : (p m : ℕ) → 0 < p → m % 2 ≡ 1 → m * p ≤ 2 * p → m * p ≡ p
only_multiple p m pos odd h =
    let le : m ≤ 2 = le_of_mul-le-mul_right {m = m} {n = 2} {k = p} h pos in
    omega (arith, ap (λ t. t * p) {x = m} {y = 1} (omega arith))

odd_even : (p m q : ℕ) → 0 < p → m % 2 ≡ 1 → m * p ≢ 2 * q * p
odd_even p m q pos odd e = omega (
  arith,
  le_of_mul-le-mul_right {m = m} {n = 2 * q} {k = p} (omega arith) pos,
  le_of_mul-le-mul_right {m = 2 * q} {n = m} {k = p} (omega arith) pos,
)

-- An odd multiple below a larger power of two has room for one more.
pub room_above : (j k m : ℕ) → j < k → m % 2 ≡ 1 → m * 2 ^ j ≤ 2 ^ k → m * 2 ^ j + 2 ^ j ≤ 2 ^ k
room_above j k m below odd h =
    let s = pow_split j k below in
    let p = 2 ^ j in
    let ne = odd_even p m s.0 (one-le-pow j 2 (omega arith)) odd in
    let lt : m * p < 2 * s.0 * p = ground (arith, s.1, ne) in
    omega (arith, s.1, next_multiple p m (2 * s.0) lt)

-- Widening by the lowest power of two in the length does not change the filled window.
pub fill-widen :
    (k j m : ℕ) (xs : List ℕ)
    → j < k
    → length xs ≡ m * 2 ^ j
    → m % 2 ≡ 1
    → length xs ≤ 2 ^ k
    → fill k (widen xs (2 ^ j)) ≡ fill k xs
fill-widen zero j m xs below len odd h = absurd (omega arith)
fill-widen (suc k) j m xs below len odd h =
    let p = 2 ^ j in
    let pos : 0 < p = one-le-pow j 2 (omega arith) in
    let wide : length (widen xs p) ≡ length xs + p =
      length-widen p xs (omega (arith, mul-le-mul_right {m = 1} {n = m} p (omega arith))) in
    elim (dec_lt j k) [
      | yes jk ↦
          let s = pow_split j k jk in
          let q = s.0 in
          elim (dec_le (length xs) (2 ^ k)) [
            | yes low ↦
                let room : length xs + p ≤ 2 ^ k =
                  omega (arith, room_above j k m jk odd (omega arith)) in
                rw
                  (
                    fill_low k (widen xs p) (omega arith),
                    fill_low k xs (omega arith),
                    fill-widen k j m xs jk len odd (omega arith),
                  )
                  refl
            | no high ↦
                let room : 2 ^ k + p ≤ length xs =
                  omega (arith, s.1, next_multiple p (2 * q) m (omega (arith, s.1))) in
                let le : 2 * q ≤ m =
                  le_of_mul-le-mul_right {m = 2 * q} {n = m} {k = p} (omega (arith, s.1)) pos in
                let upper : length (drop (2 ^ k) xs) ≡ (m - 2 * q) * p =
                  omega (arith, length-drop (2 ^ k) xs, s.1, sub_multiple p m (2 * q) le) in
                rw
                  (
                    fill_high k (widen xs p) (omega arith),
                    fill_high k xs (omega arith),
                    take-widen (2 ^ k) p xs (omega arith),
                    drop-widen (2 ^ k) p xs room,
                    fill-widen k j (m - 2 * q) (drop (2 ^ k) xs) jk upper (omega arith)
                        (omega (arith, length-drop (2 ^ k) xs, pow-suc 2 k)),
                  )
                  refl
          ]
      | no jk ↦
          let e : p ≡ 2 ^ k = ap (λ t. 2 ^ t) {x = j} {y = k} (omega arith) in
          let full : length xs ≡ 2 ^ k =
            omega (arith, only_multiple p m pos odd (omega (arith, pow-suc 2 k))) in
          ap (λ t. fill (suc k) (widen xs t)) {x = p} {y = length xs} (omega arith)
          ∙ ap (fill (suc k)) (widen_all xs)
          ∙ fill_full (suc k) (xs ++ xs) (omega (arith, length-append xs xs, pow-suc 2 k))
          ∙ sym (fill_half k xs full)
    ]
