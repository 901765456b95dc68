-- ===== src/Patch/Apply/Parts.antt =====
-- The parts of an encoded patch, as `ApplyBps` finds them.
use snesrecomp.Base.{
  ℕ, ◌+◌, ◌-◌, ◌^◌, ◌<◌, ◌≤◌, ◌≡◌, refl, ap, sym, ◌∙◌, arith, List, [], ◌++◌, true,
}
use snesrecomp.Base.{
  some, u32, length, length-append, get_or, get_or-append, take, take-append, drop, All, IsByte,
  All-append,
}
use snesrecomp.Checksum.{crc32}
use snesrecomp.Patch.Apply.{read_u32, has_magic, read_sizes}
use snesrecomp.Patch.Numbers.{encode_int, bps_decode_int-encode_int, encode_int-All}
use snesrecomp.Patch.Encode.{
  Command, begin, AllFit, output_of, little_endian, encode_all, encode_body, encode_front,
  encode_patch,
}
use snesrecomp.Patch.Rounds.{encode_all-All, length-encode_all}
use mathlib.Core.List.{append_assoc, append-nil}

get_at : (xs ys : List ℕ) (i j : ℕ) → i ≡ length xs + j → get_or (xs ++ ys) i 0 ≡ get_or ys j 0
get_at xs ys i j e = ap (λ t. get_or (xs ++ ys) t 0) e ∙ get_or-append xs ys j 0

pub read_u32-little_endian :
    (front rest : List ℕ) (i x : ℕ)
    → i ≡ length front
    → x < 2 ^ 32
    → read_u32 (front ++ (little_endian x ++ rest)) i ≡ x
unfolding read_u32 little_endian
read_u32-little_endian front rest i x e h = omega (
  arith,
  get_at front (little_endian x ++ rest) i 0 (omega arith),
  get_at front (little_endian x ++ rest) (i + 1) 1 (omega arith),
  get_at front (little_endian x ++ rest) (i + 2) 2 (omega arith),
  get_at front (little_endian x ++ rest) (i + 3) 3 (omega arith),
)

abbrev pub footer : List ℕ → List Command → List ℕ
footer src cs =
    little_endian (crc32 src)
    ++ (little_endian (crc32 (output_of src cs)) ++ little_endian (crc32 (encode_front src cs)))

pub length-footer : (src : List ℕ) (cs : List Command) → length (footer src cs) ≡ 12
unfolding little_endian
length-footer src cs = refl

-- The patch is its body and its three checksums.
pub encode_patch-footer :
    (src : List ℕ) (cs : List Command) → encode_patch src cs ≡ encode_body src cs ++ footer src cs
unfolding encode_patch encode_front
encode_patch-footer src cs =
    let w1 = little_endian (crc32 src) in
    let w2 = little_endian (crc32 (output_of src cs)) in
    let w3 = little_endian (crc32 (encode_front src cs)) in
    append_assoc (encode_body src cs) (w1 ++ w2) w3
    ∙ ap (λ t. encode_body src cs ++ t) (append_assoc w1 w2 w3)

pub length-encode_patch :
    (src : List ℕ) (cs : List Command)
    → length (encode_patch src cs) ≡ length (encode_body src cs) + 12
length-encode_patch src cs = omega (
  arith,
  ap length (encode_patch-footer src cs),
  length-append (encode_body src cs) (footer src cs),
  length-footer src cs,
)

pub has_magic-encode_patch :
    (src : List ℕ) (cs : List Command) → has_magic (encode_patch src cs) ≡ true
unfolding has_magic encode_patch encode_front encode_body
has_magic-encode_patch src cs = refl

pub length-encode_front :
    (src : List ℕ) (cs : List Command)
    → length (encode_patch src cs) ≡ length (encode_front src cs) + 4
unfolding encode_patch little_endian
length-encode_front src cs = length-append (encode_front src cs) _

pub take-encode_patch :
    (src : List ℕ) (cs : List Command)
    → take (length (encode_patch src cs) - 4) (encode_patch src cs) ≡ encode_front src cs
unfolding encode_patch
take-encode_patch src cs =
    let front = encode_front src cs in
    ap (λ t. take t (front ++ little_endian (crc32 front))) {y = length front}
      (omega (arith, length-encode_front src cs))
    ∙ take-append front (little_endian (crc32 front))

nest : (a b c d e : List ℕ) → (a ++ (b ++ (c ++ d))) ++ e ≡ a ++ (b ++ (c ++ (d ++ e)))
nest a b c d e =
    append_assoc a (b ++ (c ++ d)) e
    ∙ ap (λ t. a ++ t) (append_assoc b (c ++ d) e ∙ ap (λ t. b ++ t) (append_assoc c d e))

drop-encode_patch :
    (src : List ℕ) (cs : List Command)
    → drop 4 (encode_patch src cs)
      ≡ encode_int (length src)
        ++ (encode_int (length (output_of src cs))
            ++ (encode_int 0 ++ (encode_all src cs begin ++ footer src cs)))
unfolding encode_body
drop-encode_patch src cs =
    ap (drop 4) (encode_patch-footer src cs)
    ∙ nest (encode_int (length src)) (encode_int (length (output_of src cs))) (encode_int 0)
        (encode_all src cs begin) (footer src cs)

pub read_sizes-encode_patch :
    (src : List ℕ) (cs : List Command)
    → length src < 2 ^ 32
    → length (output_of src cs) < 2 ^ 32
    → read_sizes (drop 4 (encode_patch src cs))
      ≡ some (length src, length (output_of src cs), encode_all src cs begin ++ footer src cs)
unfolding read_sizes
read_sizes-encode_patch src cs h g =
    let rest = encode_all src cs begin ++ footer src cs in
    let e1 : u32 (length src) ≡ length src = omega arith in
    let e2 : u32 (length (output_of src cs)) ≡ length (output_of src cs) = omega arith in
    rw (drop-encode_patch src cs) (
      rw (bps_decode_int-encode_int (length src) _ (omega arith)) (
        rw (bps_decode_int-encode_int (length (output_of src cs)) _ (omega arith))
          (rw (bps_decode_int-encode_int 0 rest (omega arith)) (rw (e1, e2) refl))))

little_endian-All : (x : ℕ) → All IsByte (little_endian x)
unfolding little_endian
little_endian-All x = (omega arith, (omega arith, (omega arith, (omega arith, tt))))

encode_body-All :
    (src : List ℕ) (cs : List Command)
    → AllFit src (length (output_of src cs)) cs begin
    → All IsByte (encode_body src cs)
unfolding encode_body
encode_body-All src cs fit =
    let commands = encode_all-All src (length (output_of src cs)) cs begin fit in
    let sizes = All-append IsByte _ _ (encode_int-All (length src)) (
      All-append IsByte _ _ (encode_int-All (length (output_of src cs)))
        (All-append IsByte _ _ (encode_int-All 0) commands)) in
    (omega arith, (omega arith, (omega arith, (omega arith, sizes))))

pub encode_front-All :
    (src : List ℕ) (cs : List Command)
    → AllFit src (length (output_of src cs)) cs begin
    → All IsByte (encode_front src cs)
unfolding encode_front
encode_front-All src cs fit = All-append IsByte _ _ (encode_body-All src cs fit) (
    All-append IsByte _ _ (little_endian-All (crc32 src))
      (little_endian-All (crc32 (output_of src cs))))

pub length-little_endian : (x : ℕ) → length (little_endian x) ≡ 4
unfolding little_endian
length-little_endian x = refl

pub encode_patch-nil :
    (src : List ℕ) (cs : List Command)
    → encode_patch src cs
      ≡ encode_front src cs ++ (little_endian (crc32 (encode_front src cs)) ++ [])
unfolding encode_patch
encode_patch-nil src cs = ap (λ t. encode_front src cs ++ t) (sym (append-nil _))

-- The length of the patch is fuel enough for its commands.
pub length-commands : (src : List ℕ) (cs : List Command) → length cs ≤ length (encode_body src cs)
unfolding encode_body
length-commands src cs = omega (
  arith,
  length-append (encode_int (length src))
      (encode_int (length (output_of src cs)) ++ (encode_int 0 ++ encode_all src cs begin)),
  length-append (encode_int (length (output_of src cs))) (encode_int 0 ++ encode_all src cs begin),
  length-append (encode_int 0) (encode_all src cs begin),
  length-encode_all src cs begin,
)
