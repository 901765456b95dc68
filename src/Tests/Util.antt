-- ===== src/Tests/Util.antt =====
-- An index of two parts, and a line of a configuration text.
use snesrecomp.Base.{
  true, false, none, ℕ, zero, suc, ◌<◌, ◌≡◌, refl, arith, List, [], ◌∷◌, ◌++◌, some,
}
use snesrecomp.Util.Memblk.{
  place, wild, key, read24, lower_bound, resolve, find_addr, IsIndex, find_addr-covering,
}
use snesrecomp.Util.Text.{trim_end, next_line_strip_comments, split_key_value}
use snesrecomp.Util.Text.Lines.{assignment, config_line}
use snesrecomp.Util.Parts.{part, wild_part, little, IsInside, find_index, find_index-IsInside}
use snesrecomp.Util.Text.Values.{
  next_possibly_quoted_string, parse_bool, replace_filename_with_new_path,
}

-- Parts at $8000 and $9000, at 14 and 16 in the block.
abbrev index0 : List ℕ
index0 = 2 ∷ 0 ∷ 0x00 ∷ 0x80 ∷ 0 ∷ 0x00 ∷ 0x90 ∷ 0 ∷ 14 ∷ 0 ∷ 0 ∷ 16 ∷ 0 ∷ 0 ∷ 7 ∷ 8 ∷ 9 ∷ 10 ∷ []

ordered0 : (i j : ℕ) → i < j → j < 2 → key index0 i < key index0 j
unfolding read24
ordered0 zero zero p q = absurd (omega arith)
ordered0 zero (suc zero) p q = omega arith
ordered0 (suc i) zero p q = absurd (omega arith)
ordered0 (suc i) (suc zero) p q = absurd (omega arith)
ordered0 i (suc (suc j)) p q = absurd (omega arith)

IsIndex0 : IsIndex index0 2
IsIndex0 = (refl, (omega arith, ordered0))

high0 : (j : ℕ) → 0 < j → j < 2 → 0x8003 < key index0 j
unfolding read24
high0 zero p q = absurd (omega arith)
high0 (suc zero) p q = omega arith
high0 (suc (suc j)) p q = absurd (omega arith)

find_addr-covering_example : find_addr index0 0x8003 ≡ place 17
unfolding read24
find_addr-covering_example =
    find_addr-covering index0 2 0x8003 0 IsIndex0 (omega arith) (omega arith) high0

-- Below the first address the search reads before the block.
below_first : find_addr index0 0x7fff ≡ wild
unfolding find_addr lower_bound resolve read24
below_first = refl

-- " ab = c \r#d\n"
config_line_example :
    (next_line_strip_comments (
        some (
          ((((32 ∷ []) ++ assignment (97 ∷ 98 ∷ []) (32 ∷ []) (32 ∷ []) (99 ∷ []))
              ++ (32 ∷ 13 ∷ []))
            ++ (35 ∷ 100 ∷ []))
          ++ (10 ∷ [])))
      ≡ (some (assignment (97 ∷ 98 ∷ []) (32 ∷ []) (32 ∷ []) (99 ∷ [])), some []))
    × (split_key_value (assignment (97 ∷ 98 ∷ []) (32 ∷ []) (32 ∷ []) (99 ∷ []))
        ≡ some (97 ∷ 98 ∷ [], 99 ∷ []))
unfolding trim_end
config_line_example =
    config_line (32 ∷ []) 97 (98 ∷ []) (32 ∷ []) (32 ∷ []) 99 [] (32 ∷ 13 ∷ []) (100 ∷ []) []
      (
        omega arith,
        (
          omega arith,
          (
            omega arith,
            (
              omega arith,
              (omega arith, (omega arith, (omega arith, (omega arith, (omega arith, tt))))),
            ),
          ),
        ),
      )
      (
        omega arith,
        (
          omega arith,
          (
            omega arith,
            (
              omega arith,
              (
                omega arith,
                (
                  omega arith,
                  (omega arith, (omega arith, (omega arith, (omega arith, (omega arith, tt))))),
                ),
              ),
            ),
          ),
        ),
      )
      (omega arith, (omega arith, tt)) (refl, tt) (refl, tt) (refl, tt) (refl, (refl, tt)) refl refl
      refl refl

-- `"a b" c`, `on`, `off` and `nof`, and "x/y" with "z" for its file name.
quoted :
    next_possibly_quoted_string (32 ∷ 34 ∷ 97 ∷ 32 ∷ 98 ∷ 34 ∷ 32 ∷ 99 ∷ [])
    ≡ (97 ∷ 32 ∷ 98 ∷ [], 99 ∷ [])
unfolding next_possibly_quoted_string
quoted = refl

truth_values :
    (parse_bool true (79 ∷ 110 ∷ []) ≡ (true, some true))
    × ((parse_bool true (111 ∷ 102 ∷ 102 ∷ []) ≡ (true, some false))
        × (parse_bool false (110 ∷ 111 ∷ 102 ∷ []) ≡ (false, none)))
unfolding parse_bool
truth_values = (refl, (refl, refl))

replaced : replace_filename_with_new_path (120 ∷ 47 ∷ 121 ∷ []) (122 ∷ []) ≡ 120 ∷ 47 ∷ 122 ∷ []
unfolding replace_filename_with_new_path trim_end
replaced = refl

-- Two parts, of one byte and of two, with 16-bit offsets.
parts0 : find_index (1 ∷ 0 ∷ 7 ∷ 8 ∷ 9 ∷ 0x01 ∷ 0x80 ∷ []) 1 ≡ part 3 2
unfolding find_index
parts0 = refl

find_index-IsInside_example : IsInside 5 (find_index (1 ∷ 0 ∷ 7 ∷ 8 ∷ 9 ∷ 0x01 ∷ 0x80 ∷ []) 1)
unfolding little
find_index-IsInside_example = find_index-IsInside (1 ∷ 0 ∷ 7 ∷ 8 ∷ 9 ∷ 0x01 ∷ 0x80 ∷ []) 1 refl

-- A block of two bytes that asks for a table of indices is read before its start.
no_table : find_index (0 ∷ 0x40 ∷ []) 0 ≡ wild_part
unfolding find_index
no_table = refl
