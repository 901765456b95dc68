-- ===== src/Trace/Capacity.antt =====
-- `round_pow2_down`, which the rings of runner/src/cpu_trace.c are sized with.
use snesrecomp.Base.{
  ℕ, zero, suc, ◌+◌, ◌*◌, ◌^◌, ◌<◌, ◌≤◌, ◌≡◌, refl, ap, arith, ◌&&◌, leb, ◌!=◌, if◌then◌else◌, u64,
  dec_le, ==_ne, !=_ne, le→leb, gt→leb, and_false,
}
use snesrecomp.Trace.{double_loop, round_pow2_down}
use native.Mathlib.Nat.{pow-suc, one-le-pow, pow-le-pow_right}

shift_stops :
    (k v : ℕ)
    → ¬ (2 ^ suc k ≤ v)
    → (rest : ℕ) → k ≤ 63
    → (if (u64 (2 ^ k * 2) != 0) && leb (u64 (2 ^ k * 2)) v then rest else 2 ^ k) ≡ 2 ^ k
shift_stops k v stop rest h = elim (dec_le 63 k) [
  | yes top ↦
      let wrapped : u64 (2 ^ k * 2) ≡ 0 =
        omega (arith, ap (λ t. 2 ^ t) {x = k} {y = 63} (omega arith)) in
      rw (wrapped) refl
  | no room ↦
      let small : 2 ^ suc k ≤ 2 ^ 63 =
        pow-le-pow_right {n = 2} (omega arith) {i = suc k} {j = 63} (omega arith) in
      let same : u64 (2 ^ k * 2) ≡ 2 ^ suc k = omega (arith, pow-suc 2 k) in
      rw (same, gt→leb (2 ^ suc k) v (omega arith), and_false (2 ^ suc k != 0)) refl
]

double_loop-power :
    (fuel k v : ℕ)
    → fuel + k ≡ 64
    → 2 ^ k ≤ v
    → v < 2 ^ 64
    → (j : ℕ) × ((double_loop fuel v (2 ^ k) ≡ 2 ^ j) × ((2 ^ j ≤ v) × (v < 2 ^ suc j)))
unfolding double_loop
double_loop-power zero k v e low high =
    absurd (omega (arith, ap (λ t. 2 ^ t) {x = k} {y = 64} (omega arith)))
double_loop-power (suc fuel) k v e low high = elim (dec_le (2 ^ suc k) v) [
  | yes more ↦
      let room : 2 ^ suc k < 2 ^ 64 = omega (arith, more) in
      let same : u64 (2 ^ k * 2) ≡ 2 ^ suc k = omega (arith, pow-suc 2 k) in
      rw
        (
          same,
          !=_ne (2 ^ suc k) 0 (omega (arith, one-le-pow (suc k) 2 (omega arith))),
          le→leb (2 ^ suc k) v more,
        )
        (double_loop-power fuel (suc k) v (omega arith) more high)
  | no stop ↦ (
    k,
    (shift_stops k v stop (double_loop fuel v (u64 (2 ^ k * 2))) (omega arith), (low, omega arith)),
  )
]

-- The result for a number of 64 bits that is not 0 is the largest power of two that is not above it:
-- the loop ends before the shift leaves 64 bits.
pub round_pow2_down-power :
    (v : ℕ)
    → 0 < v
    → v < 2 ^ 64
    → (k : ℕ) × ((round_pow2_down v ≡ 2 ^ k) × ((2 ^ k ≤ v) × (v < 2 ^ suc k)))
unfolding round_pow2_down
round_pow2_down-power v pos high =
    rw (==_ne v 0 (omega arith)) (double_loop-power 64 0 v refl (omega arith) high)
