-- ===== src/Msu/Audio/Slices.antt =====
-- Slices of whole frames.
use snesrecomp.Base.{
  ℕ, zero, suc, ◌+◌, ◌-◌, ◌*◌, ◌/◌, ◌<◌, ◌≤◌, ◌≡◌, refl, ap, ◌∙◌, arith, List, [], ◌∷◌, ◌++◌,
}
use snesrecomp.Base.{length, length-take, take-prefix, take_all, take, replicate}
use mathlib.Core.List.{append_assoc}

pub take-take : (m n : ℕ) (xs : List ℕ) → m ≤ n → take m (take n xs) ≡ take m xs
take-take zero n xs h = refl
take-take (suc m) zero xs h = absurd (omega arith)
take-take (suc m) (suc n) [] h = refl
take-take (suc m) (suc n) (x ∷ xs) h = ap (λ t. x ∷ t) (take-take m n xs (omega arith))

pub take-past : (n m : ℕ) (xs ys : List ℕ) → length xs + m ≡ n → take n (xs ++ ys) ≡ xs ++ take m ys
take-past n m [] ys h = ap (λ t. take t ys) (omega arith)
take-past zero m (x ∷ xs) ys h = absurd (omega arith)
take-past (suc n) m (x ∷ xs) ys h = ap (λ t. x ∷ t) (take-past n m xs ys (omega arith))

pub take-replicate : (v m n : ℕ) → m ≤ n → take m (replicate n v) ≡ replicate m v
take-replicate v zero n h = refl
take-replicate v (suc m) zero h = absurd (omega arith)
take-replicate v (suc m) (suc n) h = ap (λ t. v ∷ t) (take-replicate v m n (omega arith))

-- What `fread` of `m` frames counts and keeps of `xs`, when there is enough and when there is not.
pub slice_full :
    (m : ℕ) (xs : List ℕ)
    → m ≤ length xs / 4
    → (length (take (4 * m) xs) / 4 ≡ m)
      × (take (4 * (length (take (4 * m) xs) / 4)) (take (4 * m) xs) ≡ take (4 * m) xs)
slice_full m xs h =
    let e : length (take (4 * m) xs) / 4 ≡ m =
      omega (arith, length-take (4 * m) xs (omega arith)) in
    (e, rw e (take-take (4 * m) (4 * m) xs (omega arith)))

pub slice_short :
    (m : ℕ) (xs : List ℕ)
    → length xs / 4 < m
    → (length (take (4 * m) xs) / 4 ≡ length xs / 4)
      × (take (4 * (length (take (4 * m) xs) / 4)) (take (4 * m) xs)
          ≡ take (4 * (length xs / 4)) xs)
slice_short m xs h = let e = take_all (4 * m) xs (omega arith) in rw e (refl, refl)

-- The whole frames of a list of bytes.
abbrev pub whole : List ℕ → List ℕ
whole bytes = take (4 * (length bytes / 4)) bytes

pub length-whole : (bytes : List ℕ) → length (whole bytes) ≡ 4 * (length bytes / 4)
length-whole bytes = length-take (4 * (length bytes / 4)) bytes (omega arith)

-- There is enough in the first list.
pub full_take :
    (frames : ℕ) (xs ys zs : List ℕ)
    → frames ≤ length xs / 4
    → take (4 * frames) ((whole xs ++ ys) ++ zs) ≡ take (4 * frames) xs
full_take frames xs ys zs h =
    ap (take (4 * frames)) (append_assoc (whole xs) ys zs)
    ∙ take-prefix (4 * frames) (whole xs) (ys ++ zs) (omega (arith, length-whole xs))
    ∙ take-take (4 * frames) _ xs (omega arith)

-- There is not: the rest is silence.
pub pad_take :
    (frames k : ℕ) (xs : List ℕ)
    → length xs ≡ 4 * k
    → k ≤ frames
    → take (4 * frames) (xs ++ replicate (4 * frames) 0) ≡ xs ++ replicate (4 * (frames - k)) 0
pad_take frames k xs e h =
    take-past (4 * frames) (4 * (frames - k)) xs (replicate (4 * frames) 0) (omega arith)
    ∙ ap (λ t. xs ++ t) (take-replicate 0 (4 * (frames - k)) (4 * frames) (omega arith))

-- There is enough in the two lists together.
pub twice_take :
    (frames : ℕ) (xs ys zs : List ℕ)
    → length xs / 4 ≤ frames
    → frames - length xs / 4 ≤ length ys / 4
    → take (4 * frames) ((whole xs ++ whole ys) ++ zs)
      ≡ whole xs ++ take (4 * (frames - length xs / 4)) ys
twice_take frames xs ys zs h g =
    let m = 4 * (frames - length xs / 4) in
    ap (take (4 * frames)) (append_assoc (whole xs) (whole ys) zs)
    ∙ take-past (4 * frames) m (whole xs) (whole ys ++ zs) (omega (arith, length-whole xs))
    ∙ ap (λ t. whole xs ++ t)
        (take-prefix m (whole ys) zs (omega (arith, length-whole ys))
          ∙ take-take m _ ys (omega arith))
