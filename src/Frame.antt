-- ===== src/Frame.antt =====
-- The start of a frame, `RtlRunFrame` in runner/src/common_rtl.c: the inputs of the two pads. The
-- HDMA replay of that file is in Frame/Hdma, the upload of a sound program in Frame/Upload, the registers in Frame/Registers.
pub mod Hdma
pub mod Upload
pub mod Registers
use snesrecomp.Base.{ℕ, ◌+◌, ◌-◌, ◌*◌, ◌/◌, ◌%◌, ◌^◌, ◌<◌, ◌≡◌, ◌==◌, if◌then◌else◌, arith}

-- Two opposite directions are the bits `k` and `k + 1`: together they are both dropped.
unfoldable pub drop_pair : ℕ → ℕ → ℕ
drop_pair k x = if x / 2 ^ k % 4 == 3 then x - 3 * 2 ^ k else x

-- `(inputs & 0x30) == 0x30`, `0xc0`, `0x30000` and `0xc0000` in turn.
unfoldable pub sanitise : ℕ → ℕ
sanitise x = drop_pair 18 (drop_pair 16 (drop_pair 6 (drop_pair 4 x)))

-- `input1_currentState` and `input2_currentState`
unfoldable pub pads : ℕ → ℕ × ℕ
unfolding sanitise
pads x = let y = sanitise x in (y % 2 ^ 12, y / 2 ^ 12 % 2 ^ 12)

-- What dropping a pair of bits leaves.
abbrev Kept : ℕ → ℕ → ℕ → Type 0
Kept k x y =
    (y / 2 ^ k % 4 < 3)
    × (y % 2 ^ k ≡ x % 2 ^ k)
    × (y / 2 ^ (k + 2) ≡ x / 2 ^ (k + 2))
    × (x / 2 ^ k % 4 < 3 → y ≡ x)

Kept-4 : (x : ℕ) → Kept 4 x (drop_pair 4 x)
unfolding drop_pair
Kept-4 x = (ground arith, ground arith, ground arith, λ h. ground arith)

Kept-6 : (x : ℕ) → Kept 6 x (drop_pair 6 x)
unfolding drop_pair
Kept-6 x = (ground arith, ground arith, ground arith, λ h. ground arith)

Kept-16 : (x : ℕ) → Kept 16 x (drop_pair 16 x)
unfolding drop_pair
Kept-16 x = (ground arith, ground arith, ground arith, λ h. ground arith)

Kept-18 : (x : ℕ) → Kept 18 x (drop_pair 18 x)
unfolding drop_pair
Kept-18 x = (ground arith, ground arith, ground arith, λ h. ground arith)

-- Neither pad ever shows both of two opposite directions. Of the first pad, all buttons but the
-- directions are kept, and a pair of directions is kept unless both are pressed.
pub pads_directions :
    (x : ℕ)
    → let (one, two) = pads x in
      (one / 2 ^ 4 % 4 < 3)
      × (one / 2 ^ 6 % 4 < 3)
      × (two / 2 ^ 4 % 4 < 3)
      × (two / 2 ^ 6 % 4 < 3)
      × (one % 2 ^ 4 ≡ x % 2 ^ 4)
      × (one / 2 ^ 8 ≡ x / 2 ^ 8 % 2 ^ 4)
      × (x / 2 ^ 4 % 4 < 3 → one / 2 ^ 4 % 4 ≡ x / 2 ^ 4 % 4)
unfolding pads
pads_directions x =
    let a = Kept-4 x in
    let b = Kept-6 (drop_pair 4 x) in
    let c = Kept-16 (drop_pair 6 (drop_pair 4 x)) in
    let d = Kept-18 (drop_pair 16 (drop_pair 6 (drop_pair 4 x))) in
    (
      omega (arith, a, b, c, d),
      omega (arith, a, b, c, d),
      omega (arith, a, b, c, d),
      omega (arith, a, b, c, d),
      omega (arith, a, b, c, d),
      omega (arith, a, b, c, d),
      λ h. omega (arith, a.3 h, b, c, d),
    )
