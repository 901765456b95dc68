-- ===== src/Base/Xor.antt =====
-- `^` of words: its lowest digit and its laws.
use Prim.Native.Nat.{
  ℕ, zero, suc, ◌+◌, ◌*◌, ◌/◌, ◌%◌, ◌^◌, ◌≤◌, ◌<◌, bit_xor, differ, bit_xor-bitwise,
}
use mathlib.Core.Path.{◌≡◌, refl, ap}
use native.Mathlib.Nat.{div-div-eq-div-mul, pow-suc, one-le-pow}
use native.Mathlib.Omega.{arith}
use snesrecomp.Base.Bits.{digits_any, shift_suc}

xor_zero_left : (b : ℕ) → bit_xor 0 b ≡ b
xor_zero_left b = bit_xor-bitwise 0 b

bit_xor_digit : (a b : ℕ) → bit_xor a b ≡ bit_xor (a / 2) (b / 2) * 2 + differ (a % 2) (b % 2)
bit_xor_digit zero b = omega (arith, xor_zero_left b, xor_zero_left (b / 2))
bit_xor_digit (suc a) b = omega (
  arith,
  bit_xor-bitwise (suc a) b,
  bit_xor-bitwise (suc a / 2) (b / 2),
  digits_any (λ y. y) differ a (suc a / 2) (suc a / 2) (b / 2) (omega arith) (omega arith),
)

differ_bits : (x y : ℕ) → x < 2 → y < 2 → differ x y ≡ (x + y) % 2
differ_bits zero y p q = omega arith
differ_bits (suc zero) zero p q = refl
differ_bits (suc zero) (suc zero) p q = refl
differ_bits (suc zero) (suc (suc y)) p q = absurd (omega arith)
differ_bits (suc (suc x)) y p q = absurd (omega arith)

-- The lowest digit, and the rest.
pub bit_xor_low : (a b : ℕ) → bit_xor a b ≡ bit_xor (a / 2) (b / 2) * 2 + (a + b) % 2
bit_xor_low a b =
    omega (arith, bit_xor_digit a b, differ_bits (a % 2) (b % 2) (omega arith) (omega arith))

pub bit_xor_half : (a b : ℕ) → bit_xor a b / 2 ≡ bit_xor (a / 2) (b / 2)
bit_xor_half a b = omega (arith, bit_xor_low a b)

pub bit_xor_parity : (a b : ℕ) → bit_xor a b % 2 ≡ (a + b) % 2
bit_xor_parity a b = omega (arith, bit_xor_low a b)

xor_comm_fuel : (n a b : ℕ) → a ≤ n → b ≤ n → bit_xor a b ≡ bit_xor b a
xor_comm_fuel zero zero zero p q = refl
xor_comm_fuel zero zero (suc b) p q = absurd (omega arith)
xor_comm_fuel zero (suc a) b p q = absurd (omega arith)
xor_comm_fuel (suc n) a b p q = omega (
  arith,
  bit_xor_low a b,
  bit_xor_low b a,
  xor_comm_fuel n (a / 2) (b / 2) (omega arith) (omega arith),
)

pub bit_xor_comm : (a b : ℕ) → bit_xor a b ≡ bit_xor b a
bit_xor_comm a b = xor_comm_fuel (a + b) a b (omega arith) (omega arith)

pub bit_xor_zero : (a : ℕ) → bit_xor a 0 ≡ a
bit_xor_zero a = omega (arith, bit_xor_comm a 0, xor_zero_left a)

xor_assoc_fuel :
    (n a b c : ℕ) → a ≤ n → b ≤ n → c ≤ n → bit_xor (bit_xor a b) c ≡ bit_xor a (bit_xor b c)
xor_assoc_fuel zero zero b c p q r =
    omega (arith, xor_zero_left (bit_xor b c), ap (λ t. bit_xor t c) (xor_zero_left b))
xor_assoc_fuel zero (suc a) b c p q r = absurd (omega arith)
xor_assoc_fuel (suc n) a b c p q r = omega (
  arith,
  bit_xor_low (bit_xor a b) c,
  bit_xor_low a (bit_xor b c),
  bit_xor_parity a b,
  bit_xor_parity b c,
  ap (λ t. bit_xor t (c / 2)) (bit_xor_half a b),
  ap (λ t. bit_xor (a / 2) t) (bit_xor_half b c),
  xor_assoc_fuel n (a / 2) (b / 2) (c / 2) (omega arith) (omega arith) (omega arith),
)

pub bit_xor_assoc : (a b c : ℕ) → bit_xor (bit_xor a b) c ≡ bit_xor a (bit_xor b c)
bit_xor_assoc a b c = xor_assoc_fuel (a + b + c) a b c (omega arith) (omega arith) (omega arith)

xor_left_comm : (b c d : ℕ) → bit_xor b (bit_xor c d) ≡ bit_xor c (bit_xor b d)
xor_left_comm b c d =
    omega
      (arith, bit_xor_assoc b c d, bit_xor_assoc c b d, ap (λ t. bit_xor t d) (bit_xor_comm b c))

-- The middle two of four change places.
pub bit_xor_swap :
    (a b c d : ℕ) → bit_xor (bit_xor a b) (bit_xor c d) ≡ bit_xor (bit_xor a c) (bit_xor b d)
bit_xor_swap a b c d = omega (
  arith,
  bit_xor_assoc a b (bit_xor c d),
  bit_xor_assoc a c (bit_xor b d),
  ap (λ t. bit_xor a t) (xor_left_comm b c d),
)

xor_self_fuel : (n a : ℕ) → a ≤ n → bit_xor a a ≡ 0
xor_self_fuel n zero h = refl
xor_self_fuel zero (suc a) h = absurd (omega arith)
xor_self_fuel (suc n) (suc a) h =
    omega (arith, bit_xor_low (suc a) (suc a), xor_self_fuel n (suc a / 2) (omega arith))

pub bit_xor_self : (a : ℕ) → bit_xor a a ≡ 0
bit_xor_self a = xor_self_fuel a a (omega arith)

-- Below and above bit `k` there is nothing to cancel.
pub bit_xor_disjoint : (k q r : ℕ) → r < 2 ^ k → bit_xor r (q * 2 ^ k) ≡ r + q * 2 ^ k
bit_xor_disjoint zero q r h = omega (
  arith,
  xor_zero_left (q * 2 ^ 0),
  ap (λ t. bit_xor t (q * 2 ^ 0)) {x = r} {y = 0} (omega arith),
)
bit_xor_disjoint (suc k) q r h = ground (
  arith,
  bit_xor_low r (q * 2 ^ suc k),
  shift_suc q k,
  bit_xor_disjoint k q (r / 2) (omega (arith, pow-suc 2 k)),
)

-- A word is the exclusive or of its part below bit `k` and the rest.
pub bit_xor_split : (k x : ℕ) → bit_xor (x % 2 ^ k) (x / 2 ^ k * 2 ^ k) ≡ x
bit_xor_split k x = ground (arith, one-le-pow k 2, bit_xor_disjoint k (x / 2 ^ k) (x % 2 ^ k))

-- `^` of two words of `k` bits has `k` bits.
pub bit_xor_lt : (k a b : ℕ) → a < 2 ^ k → b < 2 ^ k → bit_xor a b < 2 ^ k
bit_xor_lt zero a b h g = omega (
  arith,
  xor_zero_left 0,
  ap (λ t. bit_xor t b) {x = a} {y = 0} (omega arith),
  ap (λ t. bit_xor 0 t) {x = b} {y = 0} (omega arith),
)
bit_xor_lt (suc k) a b h g = omega (
  arith,
  bit_xor_low a b,
  pow-suc 2 k,
  bit_xor_lt k (a / 2) (b / 2) (omega (arith, pow-suc 2 k)) (omega (arith, pow-suc 2 k)),
)

shift_half : (k x : ℕ) → x / 2 ^ suc k ≡ x / 2 ^ k / 2
shift_half k x = omega (
  arith,
  div-div-eq-div-mul x (2 ^ k) 2,
  ap (λ t. x / t) {x = 2 ^ suc k} {y = 2 ^ k * 2} (pow-suc 2 k),
)

-- A shift to the right goes into both sides.
pub bit_xor_shift : (k a b : ℕ) → bit_xor a b / 2 ^ k ≡ bit_xor (a / 2 ^ k) (b / 2 ^ k)
bit_xor_shift zero a b = omega (
  arith,
  ap (λ t. bit_xor t (b / 1)) {x = a / 1} {y = a} (omega arith),
  ap (λ t. bit_xor a t) {x = b / 1} {y = b} (omega arith),
)
bit_xor_shift (suc k) a b = omega (
  arith,
  shift_half k (bit_xor a b),
  shift_half k a,
  shift_half k b,
  bit_xor_half (a / 2 ^ k) (b / 2 ^ k),
  ap (λ t. t / 2) (bit_xor_shift k a b),
  ap (λ t. bit_xor t (b / 2 ^ suc k)) (shift_half k a),
  ap (λ t. bit_xor (a / 2 ^ k / 2) t) (shift_half k b),
)
