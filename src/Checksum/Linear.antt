-- ===== src/Checksum/Linear.antt =====
-- The bitwise step of runner/src/util.c commutes with exclusive or.
use snesrecomp.Base.{ℕ, zero, suc, ◌+◌, ◌*◌, ◌/◌, ◌%◌, ◌^◌, ◌≡◌, refl, ap, arith, bit_xor}
use snesrecomp.Base.{bit_xor_half, bit_xor_parity, bit_xor_swap, bit_xor_zero, shift_suc, ◌<◌}
use snesrecomp.Checksum.{polynomial, crc_step, crc_steps}

feedback_bits :
    (x y : ℕ) → x < 2 → y < 2 → (x + y) % 2 * polynomial ≡ bit_xor (x * polynomial) (y * polynomial)
feedback_bits zero zero p q = refl
feedback_bits zero (suc zero) p q = refl
feedback_bits (suc zero) zero p q = refl
feedback_bits (suc zero) (suc zero) p q = refl
feedback_bits zero (suc (suc y)) p q = absurd (omega arith)
feedback_bits (suc zero) (suc (suc y)) p q = absurd (omega arith)
feedback_bits (suc (suc x)) y p q = absurd (omega arith)

-- What the lowest bits of two words contribute.
feedback-xor :
    (a b : ℕ) → bit_xor a b % 2 * polynomial ≡ bit_xor (a % 2 * polynomial) (b % 2 * polynomial)
feedback-xor a b =
    omega (arith, bit_xor_parity a b, feedback_bits (a % 2) (b % 2) (omega arith) (omega arith))

crc_step-xor : (a b : ℕ) → crc_step (bit_xor a b) ≡ bit_xor (crc_step a) (crc_step b)
unfolding crc_step
crc_step-xor a b = omega (
  arith,
  ap (λ t. bit_xor t (bit_xor a b % 2 * polynomial)) (bit_xor_half a b),
  ap (λ t. bit_xor (bit_xor (a / 2) (b / 2)) t) (feedback-xor a b),
  bit_xor_swap (a / 2) (b / 2) (a % 2 * polynomial) (b % 2 * polynomial),
)

pub crc_steps-xor :
    (count a b : ℕ)
    → crc_steps count (bit_xor a b) ≡ bit_xor (crc_steps count a) (crc_steps count b)
unfolding crc_steps
crc_steps-xor zero a b = refl
crc_steps-xor (suc count) a b = omega (
  arith,
  ap (λ t. crc_steps count t) (crc_step-xor a b),
  crc_steps-xor count (crc_step a) (crc_step b),
)

crc_step-double : (y : ℕ) → crc_step (2 * y) ≡ y
unfolding crc_step
crc_step-double y = omega (
  arith,
  bit_xor_zero y,
  ap (λ t. bit_xor t (2 * y % 2 * polynomial)) {x = 2 * y / 2} {y = y} (omega arith),
  ap (λ t. bit_xor y t) {x = 2 * y % 2 * polynomial} {y = 0} (omega arith),
)

-- A word whose low bits are clear is only shifted.
pub crc_steps-shift : (count q : ℕ) → crc_steps count (q * 2 ^ count) ≡ q
unfolding crc_steps
crc_steps-shift zero q = omega arith
crc_steps-shift (suc count) q = omega (
  arith,
  ap (λ t. crc_steps count t) (crc_step-double (q * 2 ^ count)),
  ap (λ t. crc_steps (suc count) t) {x = q * 2 ^ suc count} {y = 2 * (q * 2 ^ count)}
      (shift_suc q count),
  crc_steps-shift count q,
)
