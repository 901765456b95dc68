-- ===== src/Util/Text/Values.antt =====
-- Quoted strings, truth values and file names of a configuration text, runner/src/util.c.
use snesrecomp.Base.{
  ℕ, ◌≡◌, refl, ap, ◌∙◌, Bool, true, false, ◌&&◌, List, [], ◌∷◌, ◌++◌, Option, none, some, ◌==◌,
  if◌then◌else◌, ◌!=◌, All, Bool-cases, inl, inr, bit_or,
}
use snesrecomp.Util.Text.{is_blank, skip_blanks, string_equals_no_case, trim_end}
use snesrecomp.Util.Text.Lines.{trim_end-append, trim_end-cons}

-- `for (t = r; *t && ...; t++); if (*t) *t++ = 0;`: what is before the end, and what is behind it.
unfoldable pub take_until : (ℕ → Bool) → List ℕ → List ℕ × List ℕ
take_until stop [] = ([], [])
take_until stop (c ∷ cs) =
    let rest = take_until stop cs in if stop c then ([], cs) else (c ∷ rest.0, rest.1)

-- `NextPossiblyQuotedString`: the string and the text behind it.
unfoldable pub next_possibly_quoted_string : List ℕ → List ℕ × List ℕ
unfolding skip_blanks take_until
next_possibly_quoted_string s = let r = cut (skip_blanks s) in (r.0, skip_blanks r.1)
  where
    cut : List ℕ → List ℕ × List ℕ
    cut [] = ([], [])
    cut (c ∷ cs) = if c == 34 then take_until (λ d. d == 34) cs else take_until is_blank (c ∷ cs)

-- The `switch` of `ParseBool`, "alse", "o", "n", "ff", "es" and "rue" being the ends of the words.
unfoldable pub bool_word : List ℕ → Option Bool
unfolding string_equals_no_case
bool_word [] = none
bool_word (c ∷ value) =
    let first = bit_or c 32 in
    let on = starts_n value in
    if first == 48
    then when (is_end value) false
    else if first == 102
    then when (string_equals_no_case value (97 ∷ 108 ∷ 115 ∷ 101 ∷ [])) false
    else if first == 110
    then when (string_equals_no_case value (111 ∷ [])) false
    else if first == 111
    then when (string_equals_no_case value (if on then 110 ∷ [] else 102 ∷ 102 ∷ [])) on
    else if first == 49
    then when (is_end value) true
    else if first == 121
    then when (string_equals_no_case value (101 ∷ 115 ∷ [])) true
    else if first == 116
    then when (string_equals_no_case value (114 ∷ 117 ∷ 101 ∷ [])) true
    else none
  where
    when : Bool → Bool → Option Bool
    when matched rv = if matched then some rv else none

    is_end : List ℕ → Bool
    is_end [] = true
    is_end (c ∷ cs) = false

    starts_n : List ℕ → Bool
    starts_n [] = false
    starts_n (c ∷ cs) = bit_or c 32 == 110

-- `ParseBool`: what it returns and what it stores, if it is given where to.
unfoldable pub parse_bool : Bool → List ℕ → Bool × Option Bool
unfolding bool_word
parse_bool to_result value = elim (bool_word value) [
  | none ↦ (false, none)
  | some rv ↦ if to_result then (true, some rv) else (rv, none)
]

abbrev pub in_file_name : ℕ → Bool
in_file_name c = (c != 47) && (c != 92)

-- `ReplaceFilenameWithNewPath`
unfoldable pub replace_filename_with_new_path : List ℕ → List ℕ → List ℕ
unfolding trim_end
replace_filename_with_new_path old new = trim_end in_file_name old ++ new

trim_end_again :
    (p : ℕ → Bool) (x : ℕ) (xs t : List ℕ)
    → trim_end p xs ≡ t
    → trim_end p t ≡ t
    → trim_end p (trim_end p (x ∷ xs)) ≡ trim_end p (x ∷ xs)
unfolding trim_end
trim_end_again p x xs [] e h = elim (Bool-cases (p x)) [
  | inl cut ↦ rw (e, cut) refl
  | inr kept ↦ rw (e, kept) (rw (kept) refl)
]
trim_end_again p x xs (d ∷ ds) e h = rw (e) (trim_end-cons p x d ds h)

trim_end-trim_end : (p : ℕ → Bool) (xs : List ℕ) → trim_end p (trim_end p xs) ≡ trim_end p xs
unfolding trim_end
trim_end-trim_end p [] = refl
trim_end-trim_end p (x ∷ xs) = trim_end_again p x xs (trim_end p xs) refl (trim_end-trim_end p xs)

-- A second file name in the place of a first, which has no separators, is as if there had been no first.
replace_filename_twice :
    (old first second : List ℕ)
    → All (λ c. in_file_name c ≡ true) first
    → replace_filename_with_new_path (replace_filename_with_new_path old first) second
      ≡ replace_filename_with_new_path old second
unfolding replace_filename_with_new_path
replace_filename_twice old first second all =
    ap (λ path. path ++ second)
      (trim_end-append in_file_name (trim_end in_file_name old) first all
        ∙ trim_end-trim_end in_file_name old)
