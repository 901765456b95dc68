-- ===== src/Util/Text/Lines.antt =====
-- A line of a configuration text, read by the functions of runner/src/util.c.
use snesrecomp.Base.{
  ℕ, ◌≡◌, ◌≢◌, refl, sym, ap, ◌∙◌, Bool, true, false, List, [], ◌∷◌, ◌++◌, none, some, ==_ne,
  ==_refl, All, All-append,
}
use mathlib.Core.List.{append_assoc}
use snesrecomp.Util.Text.{
  is_blank, is_line_end, skip_blanks, split_at, trim_end, next_line_strip_comments, split_key_value,
}

split_at-found :
    (sep : ℕ) (xs ys : List ℕ)
    → All (λ c. c ≢ sep) xs
    → split_at sep (xs ++ (sep ∷ ys)) ≡ (xs, some ys)
unfolding split_at
split_at-found sep [] ys all = rw (==_refl sep) refl
split_at-found sep (x ∷ xs) ys all = rw (==_ne x sep all.0, split_at-found sep xs ys all.1) refl

split_at-absent : (sep : ℕ) (xs : List ℕ) → All (λ c. c ≢ sep) xs → split_at sep xs ≡ (xs, none)
unfolding split_at
split_at-absent sep [] all = refl
split_at-absent sep (x ∷ xs) all = rw (==_ne x sep all.0, split_at-absent sep xs all.1) refl

skip_blanks-append :
    (bs xs : List ℕ) → All (λ c. is_blank c ≡ true) bs → skip_blanks (bs ++ xs) ≡ skip_blanks xs
unfolding skip_blanks
skip_blanks-append [] xs all = refl
skip_blanks-append (b ∷ bs) xs all = rw (all.0) (skip_blanks-append bs xs all.1)

skip_blanks_solid : (c : ℕ) (cs : List ℕ) → is_blank c ≡ false → skip_blanks (c ∷ cs) ≡ c ∷ cs
unfolding skip_blanks
skip_blanks_solid c cs h = rw (h) refl

trim_end-All : (p : ℕ → Bool) (bs : List ℕ) → All (λ c. p c ≡ true) bs → trim_end p bs ≡ []
unfolding trim_end
trim_end-All p [] all = refl
trim_end-All p (b ∷ bs) all = rw (trim_end-All p bs all.1) (rw (all.0) refl)

pub trim_end-append :
    (p : ℕ → Bool) (xs bs : List ℕ)
    → All (λ c. p c ≡ true) bs
    → trim_end p (xs ++ bs) ≡ trim_end p xs
unfolding trim_end
trim_end-append p [] bs all = trim_end-All p bs all
trim_end-append p (x ∷ xs) bs all = rw (trim_end-append p xs bs all) refl

pub trim_end-cons :
    (p : ℕ → Bool) (x y : ℕ) (ys : List ℕ)
    → trim_end p (y ∷ ys) ≡ y ∷ ys
    → trim_end p (x ∷ y ∷ ys) ≡ x ∷ y ∷ ys
unfolding trim_end
trim_end-cons p x y ys h = rw (h) refl

-- Nothing is cut from a text with this end.
abbrev pub IsSolid : (ℕ → Bool) → List ℕ → Type 0
IsSolid p ys = (xs : List ℕ) → trim_end p (xs ++ ys) ≡ xs ++ ys

IsSolid-append : (p : ℕ → Bool) (zs ys : List ℕ) → IsSolid p ys → IsSolid p (zs ++ ys)
IsSolid-append p zs ys solid xs = rw (sym (append_assoc xs zs ys)) (solid (xs ++ zs))

IsSolid-trimmed :
    (p : ℕ → Bool) (y : ℕ) (ys : List ℕ) → trim_end p (y ∷ ys) ≡ y ∷ ys → IsSolid p (y ∷ ys)
IsSolid-trimmed p y ys h [] = h
IsSolid-trimmed p y ys h (x ∷ []) = trim_end-cons p x y ys h
IsSolid-trimmed p y ys h (x ∷ x' ∷ xs) =
    trim_end-cons p x x' (xs ++ (y ∷ ys)) (IsSolid-trimmed p y ys h (x' ∷ xs))

-- What may surround the key and the value.
abbrev pub AreBlank : List ℕ → Type 0
AreBlank cs = All (λ c. is_blank c ≡ true) cs

abbrev pub Without : ℕ → List ℕ → Type 0
Without sep cs = All (λ c. c ≢ sep) cs

AreBlank-Without : (cs : List ℕ) → AreBlank cs → Without 61 cs
AreBlank-Without [] all = tt
AreBlank-Without (c ∷ cs) all =
    ((λ e. absurd (cc (all.0, ap is_blank e))), AreBlank-Without cs all.1)

-- A key and a value with an equals sign between them, all with blanks around.
abbrev pub assignment : List ℕ → List ℕ → List ℕ → List ℕ → List ℕ
assignment key pad pad' value = key ++ (pad ++ (61 ∷ (pad' ++ value)))

split_key_value-found :
    (s a v : List ℕ)
    → split_at 61 s ≡ (a, some v)
    → split_key_value s ≡ some (trim_end is_blank a, skip_blanks v)
unfolding split_key_value
split_key_value-found s a v h = rw (h) refl

split_assignment :
    (key pad pad' : List ℕ) (v : ℕ) (vs : List ℕ)
    → Without 61 key
    → AreBlank pad
    → AreBlank pad'
    → trim_end is_blank key ≡ key
    → is_blank v ≡ false
    → split_key_value (assignment key pad pad' (v ∷ vs)) ≡ some (key, v ∷ vs)
split_assignment key pad pad' v vs plain b b' trimmed solid =
    let all = All-append (λ c. c ≢ 61) key pad plain (AreBlank-Without pad b) in
    let cut = split_at-found 61 (key ++ pad) (pad' ++ (v ∷ vs)) all in
    let whole : split_at 61 (assignment key pad pad' (v ∷ vs))
        ≡ (key ++ pad, some (pad' ++ (v ∷ vs))) =
      ap (split_at 61) (sym (append_assoc key pad (61 ∷ (pad' ++ (v ∷ vs))))) ∙ cut in
    rw
      (
        split_key_value-found (assignment key pad pad' (v ∷ vs)) (key ++ pad) (pad' ++ (v ∷ vs))
            whole,
        trim_end-append is_blank key pad b,
        trimmed,
        skip_blanks-append pad' (v ∷ vs) b',
        skip_blanks_solid v vs solid,
      )
      refl

-- A line "<indent><key><pad>=<pad'><value><trail>#<comment>", whose key has neither an equals sign nor
-- blanks at its ends and whose value has no blanks or carriage returns at its ends, and neither with a
-- number sign or an end of line, is read to its key and its value, and the text behind it remains.
pub config_line :
    (indent : List ℕ) (k : ℕ) (ks pad pad' : List ℕ) (v : ℕ) (vs trail comment rest : List ℕ)
    → let key = k ∷ ks in
      let line = indent ++ assignment key pad pad' (v ∷ vs) in
      Without 35 (line ++ trail)
      → Without 10 ((line ++ trail) ++ (35 ∷ comment))
      → Without 61 key
      → AreBlank indent
      → AreBlank pad
      → AreBlank pad'
      → All (λ c. is_line_end c ≡ true) trail
      → is_blank k ≡ false
      → trim_end is_blank key ≡ key
      → is_blank v ≡ false
      → trim_end is_line_end (v ∷ vs) ≡ v ∷ vs
      → let read =
          next_line_strip_comments (some (((line ++ trail) ++ (35 ∷ comment)) ++ (10 ∷ rest))) in
        (read ≡ (some (assignment key pad pad' (v ∷ vs)), some rest))
        × (split_key_value (assignment key pad pad' (v ∷ vs)) ≡ some (key, v ∷ vs))
unfolding next_line_strip_comments
config_line indent k ks pad pad' v vs trail comment rest plain one_line sign bi bp bp' bt solid_k
      trimmed_k solid_v trimmed_v =
    let key = k ∷ ks in
    let body = assignment key pad pad' (v ∷ vs) in
    let line = indent ++ body in
    let end : IsSolid is_line_end (v ∷ vs) = IsSolid-trimmed is_line_end v vs trimmed_v in
    let solid : IsSolid is_line_end body =
      IsSolid-append is_line_end key (pad ++ (61 ∷ (pad' ++ (v ∷ vs)))) (
        IsSolid-append is_line_end pad (61 ∷ (pad' ++ (v ∷ vs)))
          (IsSolid-append is_line_end (61 ∷ pad') (v ∷ vs) end)) in
    (
      rw
          (
            split_at-found 10 ((line ++ trail) ++ (35 ∷ comment)) rest one_line,
            split_at-found 35 (line ++ trail) comment plain,
            trim_end-append is_line_end line trail bt,
            solid indent,
            skip_blanks-append indent body bi,
            skip_blanks_solid k (ks ++ (pad ++ (61 ∷ (pad' ++ (v ∷ vs))))) solid_k,
          )
          refl,
      split_assignment key pad pad' v vs sign bp bp' trimmed_k solid_v,
    )
