-- ===== src/Util/Text/Matching.antt =====
-- The comparisons of runner/src/util.c against the texts that they compare.
use snesrecomp.Base.{ℕ, ◌≡◌, refl, true, List, [], ◌∷◌, map, ℕ_discrete, ==_ne, ==_iff}
use snesrecomp.Util.Text.{to_lower, string_equals_no_case}

-- Two texts are equal without regard to case exactly if they are the same in lower case.
pub string_equals_no_case-map :
    (xs ys : List ℕ)
    → (string_equals_no_case xs ys ≡ true → map to_lower xs ≡ map to_lower ys)
      × (map to_lower xs ≡ map to_lower ys → string_equals_no_case xs ys ≡ true)
unfolding string_equals_no_case
string_equals_no_case-map [] [] = ((λ h. refl), (λ h. refl))
string_equals_no_case-map [] (y ∷ ys) = ((λ h. cc), (λ h. cc))
string_equals_no_case-map (x ∷ xs) [] = ((λ h. cc), (λ h. cc))
string_equals_no_case-map (x ∷ xs) (y ∷ ys) = elim (ℕ_discrete (to_lower x) (to_lower y)) [
  | yes same ↦
      let r = string_equals_no_case-map xs ys in
      rw ((==_iff (to_lower x) (to_lower y)).1 same) ((λ h. cc (same, r.0 h)), (λ h. r.1 (cc h)))
  | no other ↦ rw (==_ne (to_lower x) (to_lower y) other) ((λ h. cc), (λ h. absurd (other (cc h))))
]
