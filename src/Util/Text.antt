-- ===== src/Util/Text.antt =====
-- The texts of runner/src/util.c. A C string is the list of its characters before the zero; a cut that
-- writes a zero into the string is the list up to there.
pub mod Lines
pub mod Matching
pub mod Values
use snesrecomp.Base.{
  ℕ, ◌+◌, ◌*◌, Bool, true, false, ◌&&◌, ◌||◌, List, [], ◌∷◌, Option, none, some, leb, ◌==◌,
  if◌then◌else◌, of_bool,
}

-- `ToLower`
unfoldable pub to_lower : ℕ → ℕ
to_lower a = a + of_bool (leb 65 a && leb a 90) * 32

-- `StringEqualsNoCase`
unfoldable pub string_equals_no_case : List ℕ → List ℕ → Bool
unfolding to_lower
string_equals_no_case [] [] = true
string_equals_no_case [] (y ∷ ys) = false
string_equals_no_case (x ∷ xs) [] = false
string_equals_no_case (x ∷ xs) (y ∷ ys) =
    let rest = string_equals_no_case xs ys in if to_lower x == to_lower y then rest else false

-- `StringStartsWithNoCase`: what is behind the prefix.
unfoldable pub string_starts_with_no_case : List ℕ → List ℕ → Option (List ℕ)
unfolding to_lower
string_starts_with_no_case xs [] = some xs
string_starts_with_no_case [] (y ∷ ys) = none
string_starts_with_no_case (x ∷ xs) (y ∷ ys) =
    let rest = string_starts_with_no_case xs ys in if to_lower x == to_lower y then rest else none

-- `SkipPrefix`
unfoldable pub skip_prefix : List ℕ → List ℕ → Option (List ℕ)
skip_prefix big [] = some big
skip_prefix [] (y ∷ ys) = none
skip_prefix (x ∷ xs) (y ∷ ys) = let rest = skip_prefix xs ys in if y == x then rest else none

abbrev pub is_blank : ℕ → Bool
is_blank c = (c == 32) || (c == 9)

-- `while (*r == ' ' || *r == '\t') r++;`
unfoldable pub skip_blanks : List ℕ → List ℕ
skip_blanks [] = []
skip_blanks (c ∷ cs) = let rest = skip_blanks cs in if is_blank c then rest else c ∷ cs

-- `strchr(s, sep)`: what is before the first `sep`, and what is behind it.
unfoldable pub split_at : ℕ → List ℕ → List ℕ × Option (List ℕ)
split_at sep [] = ([], none)
split_at sep (c ∷ cs) =
    let rest = split_at sep cs in if c == sep then ([], some cs) else (c ∷ rest.0, rest.1)

-- `NextDelim`: the field and the text behind it; `none` is the null pointer.
unfoldable pub next_delim : Option (List ℕ) → ℕ → Option (List ℕ) × Option (List ℕ)
unfolding skip_blanks split_at
next_delim none sep = (none, none)
next_delim (some s) sep = let r = split_at sep (skip_blanks s) in (some r.0, r.1)

-- Dropping the characters at the end that a test takes, `while (eol > p && ...) eol--;`.
unfoldable pub trim_end : (ℕ → Bool) → List ℕ → List ℕ
trim_end p [] = []
trim_end p (c ∷ cs) = keep c (trim_end p cs)
  where
    keep : ℕ → List ℕ → List ℕ
    keep c [] = if p c then [] else c ∷ []
    keep c (d ∷ ds) = c ∷ d ∷ ds

abbrev pub is_line_end : ℕ → Bool
is_line_end c = (c == 13) || is_blank c

-- `NextLineStripComments`
unfoldable pub next_line_strip_comments : Option (List ℕ) → Option (List ℕ) × Option (List ℕ)
unfolding skip_blanks split_at trim_end
next_line_strip_comments none = (none, none)
next_line_strip_comments (some s) =
    let line = split_at 10 s in
    let text = (split_at 35 line.0).0 in (some (skip_blanks (trim_end is_line_end text)), line.1)

-- `SplitKeyValue`: the key, without the blanks at its end, and the value.
unfoldable pub split_key_value : List ℕ → Option (List ℕ × List ℕ)
unfolding skip_blanks split_at trim_end
split_key_value s = fields (split_at 61 s)
  where
    fields : List ℕ × Option (List ℕ) → Option (List ℕ × List ℕ)
    fields (key, none) = none
    fields (key, some v) = some (trim_end is_blank key, skip_blanks v)
