-- ===== src/Patch/Copies.antt =====
-- The copying loops of `ApplyBps` against list operations.
use snesrecomp.Base.{
  ℕ, zero, suc, ◌+◌, ◌^◌, ◌<◌, ◌≤◌, ◌≡◌, refl, ap, sym, ◌∙◌, arith, List, [], ◌∷◌, ◌++◌,
}
use snesrecomp.Base.{
  some, u32, lt→ltb, length, get_or, take, drop, drop-cons, get_elem?-eq-get_or, length-append,
}
use snesrecomp.Patch.{put, source_read, target_read, source_copy, target_copy, move}
use snesrecomp.Patch.Encode.{repeat_from, relative}
use mathlib.Core.List.{append-nil, append_assoc}

put_fits :
    (dst_size : ℕ) (out : List ℕ) (v : ℕ)
    → length out < dst_size
    → put dst_size out v ≡ some (out ++ (v ∷ []))
unfolding put
put_fits dst_size out v h = rw (lt→ltb _ _ h) refl

length-snoc : (out : List ℕ) (v : ℕ) → length (out ++ (v ∷ [])) ≡ suc (length out)
length-snoc out v = omega (arith, length-append out (v ∷ []))

-- The next byte of a slice.
snoc-take :
    (src out : List ℕ) (start k : ℕ)
    → start < length src
    → (out ++ (get_or src start 0 ∷ [])) ++ take k (drop (suc start) src)
      ≡ out ++ take (suc k) (drop start src)
snoc-take src out start k h =
    append_assoc out (get_or src start 0 ∷ []) (take k (drop (suc start) src))
    ∙ ap (λ t. out ++ take (suc k) t) (sym (drop-cons start src 0 h))

pub source_read-take :
    (src : List ℕ) (dst_size k : ℕ) (out : List ℕ)
    → length out + k ≤ length src
    → length out + k ≤ dst_size
    → source_read src dst_size k out ≡ some (out ++ take k (drop (length out) src))
unfolding source_read
source_read-take src dst_size zero out h g = ap some (sym (append-nil out))
source_read-take src dst_size (suc k) out h g =
    let v = get_or src (length out) 0 in
    let next =
      source_read-take src dst_size k (out ++ (v ∷ [])) (omega (arith, length-snoc out v))
        (omega (arith, length-snoc out v)) in
    rw (get_elem?-eq-get_or src (length out) 0 (omega arith)) (
      rw (put_fits dst_size out v (omega arith))
        (next ∙ rw (length-snoc out v) (ap some (snoc-take src out (length out) k (omega arith)))))

pub target_read-append :
    (dst_size : ℕ) (bs rest out : List ℕ)
    → length out + length bs ≤ dst_size
    → target_read dst_size (length bs) (bs ++ rest) out ≡ some (out ++ bs, rest)
unfolding target_read
target_read-append dst_size [] rest out g = rw (append-nil out) refl
target_read-append dst_size (b ∷ bs) rest out g = rw (put_fits dst_size out b (omega arith)) (
    target_read-append dst_size bs rest (out ++ (b ∷ [])) (omega (arith, length-snoc out b))
    ∙ rw (append_assoc out (b ∷ []) bs) refl)

pub source_copy-take :
    (src : List ℕ) (dst_size k start : ℕ) (out : List ℕ)
    → start + k ≤ length src
    → length src < 2 ^ 31
    → length out + k ≤ dst_size
    → source_copy src dst_size k start out ≡ some (start + k, out ++ take k (drop start src))
unfolding source_copy
source_copy-take src dst_size zero start out h b g =
    rw (append-nil out) (ap (λ (t : ℕ). some (t, out)) (omega arith))
source_copy-take src dst_size (suc k) start out h b g =
    let v = get_or src start 0 in
    let e : u32 (start + 1) ≡ suc start = omega arith in
    let next =
      source_copy-take src dst_size k (suc start) (out ++ (v ∷ [])) (omega arith) b
        (omega (arith, length-snoc out v)) in
    let total : suc start + k ≡ start + suc k = omega arith in
    rw (get_elem?-eq-get_or src start 0 (omega arith)) (
      rw (put_fits dst_size out v (omega arith)) (
        rw e (
          next
          ∙ rw (snoc-take src out start k (omega arith))
              (ap (λ (t : ℕ). some (t, out ++ take (suc k) (drop start src))) total))))

pub target_copy-repeat_from :
    (dst_size k start : ℕ) (out : List ℕ)
    → start < length out
    → dst_size < 2 ^ 31
    → length out + k ≤ dst_size
    → target_copy dst_size k start out ≡ some (start + k, repeat_from start k out)
unfolding target_copy repeat_from
target_copy-repeat_from dst_size zero start out h b g = ap (λ (t : ℕ). some (t, out)) (omega arith)
target_copy-repeat_from dst_size (suc k) start out h b g =
    let v = get_or out start 0 in
    let e : u32 (start + 1) ≡ suc start = omega arith in
    let e' : start + 1 ≡ suc start = omega arith in
    let next =
      target_copy-repeat_from dst_size k (suc start) (out ++ (v ∷ []))
        (omega (arith, length-snoc out v)) b (omega (arith, length-snoc out v)) in
    let total : suc start + k ≡ start + suc k = omega arith in
    rw (get_elem?-eq-get_or out start 0 (omega arith)) (
      rw (put_fits dst_size out v (omega arith)) (
        rw (e, e')
          (next ∙ ap (λ (t : ℕ). some (t, repeat_from (suc start) k (out ++ (v ∷ [])))) total)))

pub move-relative :
    (from start : ℕ)
    → from < 2 ^ 31
    → start < 2 ^ 31
    → move from (u32 (relative from start)) ≡ start
unfolding move relative
move-relative from start h g = ground arith
