-- ===== src/Util/Parts.antt =====
-- `FindIndexInMemblk`, runner/src/util.c: the parts of a block, whose table is at its start and whose
-- description is at its end. `size_t` has 64 bits.
use snesrecomp.Base.{
  ℕ, zero, suc, ◌+◌, ◌-◌, ◌*◌, ◌/◌, ◌%◌, ◌^◌, ◌≤◌, ◌≡◌, arith, ◌||◌, List, length, get_or, Option,
  none, some, ltb, leb, ◌==◌, if◌then◌else◌, inl, inr, ◌⊎◌, ltb→ge, le→leb, Bool-cases, u64, ==_ne,
  ==_iff, ℕ_discrete, refl,
}
use native.Mathlib.Nat.{mul-le-mul_right}

-- The empty block, a read outside the block, and a part with its offset and its size.
pub data Part : Type 0 where
  no_part wild_part : Part
  part : ℕ → ℕ → Part

-- A number of `w` bytes at `p`, the lowest byte first.
unfoldable pub little : List ℕ → ℕ → ℕ → ℕ
little bytes zero p = 0
little bytes (suc w) p = get_or bytes p 0 + little bytes w (p + 1) * 256

unfoldable pub read_le : List ℕ → ℕ → ℕ → Option ℕ
unfolding little
read_le bytes w p = if leb (p + w) (length bytes) then some (little bytes w p) else none

-- The end of `FindIndexInMemblk`, for a table of numbers of `w` bytes.
unfoldable pub between : ℕ → Option ℕ → Option ℕ → Part
between end none right = wild_part
between end (some left) none = wild_part
between end (some left) (some right) =
    if ltb right left || ltb end right then no_part else part left (right - left)

abbrev pub behind : ℕ → Option ℕ → Option ℕ
behind base none = none
behind base (some n) = some (base + n)

unfoldable pub part_of : List ℕ → ℕ → ℕ → ℕ → ℕ → Part
unfolding between read_le
part_of bytes end i mx w =
    let left = if i == 0 then some (mx * w) else behind (mx * w) (read_le bytes w (i * w - w)) in
    let right = if i == mx then some end else behind (mx * w) (read_le bytes w (i * w)) in
    if ltb mx i || ltb end (mx * w) then no_part else between end left right

-- `if (f & 0x4000)`: the end, the index and the number of parts behind the table of indices.
unfoldable pub reindex : List ℕ → ℕ → ℕ → ℕ → Part ⊎ (ℕ × ℕ × ℕ)
unfolding read_le
reindex bytes end i mx =
    let below = u64 (end + 2 ^ 64 - 2) in
    elim (read_le bytes 2 below) [
      | none ↦ inl wild_part
      | some next ↦
          let w = if leb 256 next then 2 else 1 in
          let front = u64 (below + 2 ^ 64 - (mx * w + w)) in
          if ltb mx i || ltb below (mx * w)
          then inl no_part
          else elim (read_le bytes w (u64 (front + i * w))) [
            | none ↦ inl wild_part
            | some j ↦ inr (front, j, next)
          ]
    ]

-- `FindIndexInMemblk`
unfoldable pub find_index : List ℕ → ℕ → Part
unfolding little part_of reindex
find_index bytes i =
    let end = length bytes - 2 in
    let f = little bytes 2 end in
    let mx = f % 2 ^ 12 in
    let w = if (f / 2 ^ 15) % 2 == 1 then 2 else 4 in
    let moved = if (f / 2 ^ 14) % 2 == 1 then reindex bytes end i mx else inr (end, i, mx) in
    if ltb (length bytes) 2
    then no_part
    else elim moved [ inl result ↦ result | inr at ↦ part_of bytes at.0 at.1 at.2 w ]

-- The part is inside the block, and no read has left it.
abbrev pub IsInside : ℕ → Part → Type 0
IsInside size no_part = Unit
IsInside size wild_part = ⊥
IsInside size (part at n) = at + n ≤ size

between-IsInside : (end l r : ℕ) → IsInside end (between end (some l) (some r))
unfolding between
between-IsInside end l r = elim (Bool-cases (ltb r l)) [
  | inl p ↦ rw (p) tt
  | inr p ↦ elim (Bool-cases (ltb end r)) [
    | inl q ↦ rw (p, q) tt
    | inr q ↦ rw (p, q) (omega (arith, ltb→ge r l p, ltb→ge end r q))
  ]
]

read_le-some :
    (bytes : List ℕ) (w p : ℕ) → p + w ≤ length bytes → read_le bytes w p ≡ some (little bytes w p)
unfolding read_le
read_le-some bytes w p h = rw (le→leb (p + w) (length bytes) h) refl

abbrev IsSome : Option ℕ → Type 0
IsSome o = (n : ℕ) × (o ≡ some n)

left-IsSome :
    (bytes : List ℕ) (i base w : ℕ)
    → i * w ≤ length bytes
    → IsSome (if i == 0 then some base else behind base (read_le bytes w (i * w - w)))
left-IsSome bytes zero base w h = (base, refl)
left-IsSome bytes (suc i) base w h =
    let more : suc i * w ≡ i * w + w = grind arith in
    (
      base + little bytes w (suc i * w - w),
      rw (==_ne (suc i) 0 (omega arith), read_le-some bytes w (suc i * w - w) (omega arith)) refl,
    )

right-IsSome :
    (bytes : List ℕ) (end i mx w : ℕ)
    → i ≤ mx
    → mx * w ≤ length bytes
    → IsSome (if i == mx then some end else behind (mx * w) (read_le bytes w (i * w)))
right-IsSome bytes end i mx w h fits = elim (ℕ_discrete i mx) [
  | yes e ↦ (end, rw ((==_iff i mx).1 e) refl)
  | no ne ↦
      let more : suc i * w ≡ i * w + w = grind arith in
      let below : suc i * w ≤ mx * w = mul-le-mul_right w (omega arith) in
      (
        mx * w + little bytes w (i * w),
        rw (==_ne i mx ne, read_le-some bytes w (i * w) (omega arith)) refl,
      )
]

part_of-IsInside :
    (bytes : List ℕ) (end i mx w : ℕ) → end ≤ length bytes → IsInside end (part_of bytes end i mx w)
unfolding part_of
part_of-IsInside bytes end i mx w short = elim (Bool-cases (ltb mx i)) [
  | inl p ↦ rw (p) tt
  | inr p ↦ elim (Bool-cases (ltb end (mx * w))) [
    | inl q ↦ rw (p, q) tt
    | inr q ↦
        let within : i * w ≤ mx * w = mul-le-mul_right w (ltb→ge mx i p) in
        let fits : mx * w ≤ length bytes = omega (arith, ltb→ge end (mx * w) q) in
        let (l, left) = left-IsSome bytes i (mx * w) w (omega arith) in
        let (r, right) = right-IsSome bytes end i mx w (ltb→ge mx i p) fits in
        rw (p, q, left, right) (between-IsInside end l r)
  ]
]

-- In a block whose description asks for no table of indices, `FindIndexInMemblk` reads nothing outside
-- the block, whatever the tables in it say, and gives no part or one that ends before the description.
pub find_index-IsInside :
    (bytes : List ℕ) (i : ℕ)
    → (little bytes 2 (length bytes - 2) / 2 ^ 14) % 2 ≡ 0
    → IsInside (length bytes - 2) (find_index bytes i)
unfolding find_index
find_index-IsInside bytes i plain =
    let f = little bytes 2 (length bytes - 2) in
    let w : ℕ = if (f / 2 ^ 15) % 2 == 1 then 2 else 4 in
    elim (Bool-cases (ltb (length bytes) 2)) [
      | inl p ↦ rw (p) tt
      | inr p ↦
          let short : length bytes - 2 ≤ length bytes = omega arith in
          rw (p, plain) (part_of-IsInside bytes (length bytes - 2) i (f % 2 ^ 12) w short)
    ]
