-- ===== src/Dispatch/Search.antt =====
-- The binary search of a sorted table finds the row of a program counter, or that there is none.
use snesrecomp.Base.{
  ℕ, zero, suc, ◌+◌, ◌-◌, ◌/◌, ◌≤◌, ◌<◌, ◌≡◌, ◌≢◌, ◌⊎◌, List, [], ◌∷◌, Option, none, some, length,
  get_elem?, arith, inl, inr, refl, ◌∙◌, dec_lt, ℕ_discrete,
}
use snesrecomp.Dispatch.Table.{DispatchEntry, search, lookup}

abbrev middle : ℕ → ℕ → ℕ
middle lo hi = lo + (hi - lo) / 2

module _ {F : Type 0} where
  abbrev pub Row : List (DispatchEntry F) → ℕ → DispatchEntry F → Type 0
  Row table i e = get_elem? table i ≡ some e

  -- Rows are in strictly ascending order of their program counters.
  abbrev pub IsSorted : List (DispatchEntry F) → Type 0
  IsSorted table =
      (i j : ℕ) (e f : DispatchEntry F) → Row table i e → Row table j f → i < j → e.pc24 < f.pc24

  Row-exists :
      (table : List (DispatchEntry F)) (i : ℕ)
      → i < length table
      → (e : DispatchEntry F) × Row table i e
  Row-exists [] i h = absurd (omega arith)
  Row-exists (e ∷ es) zero h = (e, refl)
  Row-exists (e ∷ es) (suc i) h = Row-exists es i (omega arith)

  Row-lt :
      (table : List (DispatchEntry F)) (i : ℕ) {e : DispatchEntry F}
      → Row table i e
      → i < length table
  Row-lt [] i h = cc
  Row-lt (e ∷ es) zero h = omega arith
  Row-lt (e ∷ es) (suc i) h = omega (arith, Row-lt es i h)

  -- What the search of `[lo, hi)` may answer.
  abbrev Answer : List (DispatchEntry F) → ℕ → ℕ → ℕ → ℕ → Option (Option F) → Type 0
  Answer table idx pc lo hi r =
      ((i : ℕ) × (e : DispatchEntry F) × Row table i e × (e.pc24 ≡ pc) × (r ≡ some (e.variant idx)))
      ⊎ ((r ≡ some none)
          × ((i : ℕ) (e : DispatchEntry F) → Row table i e → lo ≤ i → i < hi → e.pc24 ≢ pc))

  module _ (table : List (DispatchEntry F)) (idx pc fuel lo hi : ℕ) (e : DispatchEntry F)
      (go : lo < hi) (row : Row table (middle lo hi) e) where
    search_hit : e.pc24 ≡ pc → search table idx pc (suc fuel) lo hi ≡ some (e.variant idx)
    unfolding search
    search_hit h = ground arith

    search_right :
        e.pc24 < pc
        → search table idx pc (suc fuel) lo hi ≡ search table idx pc fuel (middle lo hi + 1) hi
    unfolding search
    search_right h = ground arith

    search_left :
        pc < e.pc24
        → search table idx pc (suc fuel) lo hi ≡ search table idx pc fuel lo (middle lo hi)
    unfolding search
    search_left h = ground arith

  -- No row up to `m` is above the row there, and none from `m` on is below it.
  module _ (table : List (DispatchEntry F)) (sorted : IsSorted table) (m : ℕ) (e : DispatchEntry F)
      (row : Row table m e) where
    up_to-le : (i : ℕ) (f : DispatchEntry F) → Row table i f → i ≤ m → f.pc24 ≤ e.pc24
    up_to-le i f r h = elim (ℕ_discrete i m) [
      | yes same ↦ ground arith
      | no other ↦ omega (arith, sorted i m f e r row (omega arith))
    ]

    from-ge : (i : ℕ) (f : DispatchEntry F) → Row table i f → m ≤ i → e.pc24 ≤ f.pc24
    from-ge i f r h = elim (ℕ_discrete i m) [
      | yes same ↦ ground arith
      | no other ↦ omega (arith, sorted m i e f row r (omega arith))
    ]

  search-Answer :
      (table : List (DispatchEntry F)) (idx pc : ℕ)
      → IsSorted table
      → (fuel lo hi : ℕ) → hi ≤ length table
      → hi - lo < fuel
      → Answer table idx pc lo hi (search table idx pc fuel lo hi)
  search-Answer table idx pc sorted zero lo hi fits more = absurd (omega arith)
  search-Answer table idx pc sorted (suc fuel) lo hi fits more = elim (dec_lt lo hi) [
    | no done ↦ inr (unfold search in ground arith, λ i e r p q. absurd (omega arith))
    | yes go ↦
        let (e, row) = Row-exists table (middle lo hi) (omega arith) in
        elim (ℕ_discrete e.pc24 pc) [
          | yes hit ↦
              inl (middle lo hi, e, row, hit, search_hit table idx pc fuel lo hi e go row hit)
          | no miss ↦ elim (dec_lt e.pc24 pc) [
            | yes below ↦
                elim (search-Answer table idx pc sorted fuel (middle lo hi + 1) hi fits
                  (omega arith)) [
                    | inl (i, f, r, same, found) ↦
                        inl (
                          i,
                          f,
                          r,
                          same,
                          search_right table idx pc fuel lo hi e go row below ∙ found,
                        )
                    | inr (gone, none_right) ↦ inr (
                      search_right table idx pc fuel lo hi e go row below ∙ gone,
                      λ i f r p q. elim (dec_lt (middle lo hi) i) [
                        | yes after ↦ none_right i f r (omega arith) q
                        | no upto ↦ λ eq. absurd (
                            omega (
                              arith,
                              up_to-le table sorted (middle lo hi) e row i f r (omega arith),
                            ))
                      ],
                    )
                  ]
            | no above ↦
                elim (search-Answer table idx pc sorted fuel lo (middle lo hi) (omega arith)
                  (omega arith)) [
                    | inl (i, f, r, same, found) ↦ inl (
                      i,
                      f,
                      r,
                      same,
                      search_left table idx pc fuel lo hi e go row (omega arith) ∙ found,
                    )
                    | inr (gone, none_left) ↦ inr (
                      search_left table idx pc fuel lo hi e go row (omega arith) ∙ gone,
                      λ i f r p q. elim (dec_lt i (middle lo hi)) [
                        | yes before ↦ none_left i f r p (omega arith)
                        | no from ↦ λ eq. absurd (
                            omega (
                              arith,
                              from-ge table sorted (middle lo hi) e row i f r (omega arith),
                            ))
                      ],
                    )
                  ]
          ]
        ]
  ]

  -- A program counter stands at one place.
  same_place :
      (table : List (DispatchEntry F))
      → IsSorted table
      → (i j : ℕ) (e f : DispatchEntry F) → Row table i e
      → Row table j f
      → f.pc24 ≡ e.pc24
      → j ≡ i
  same_place table sorted i j e f r q same = elim (dec_lt i j) [
    | yes below ↦ absurd (omega (arith, sorted i j e f r q below))
    | no upto ↦ elim (dec_lt j i) [
      | yes above ↦ absurd (omega (arith, sorted j i f e q r above))
      | no from ↦ omega arith
    ]
  ]

  -- In a sorted table the lookup of a program counter that has a row gives the variant of that row
  -- for the M and X flags, which may be missing.
  pub lookup_hit :
      (table : List (DispatchEntry F)) (idx i : ℕ) (e : DispatchEntry F)
      → IsSorted table
      → Row table i e
      → lookup table idx e.pc24 ≡ e.variant idx
  lookup_hit table idx i e sorted row =
      elim (search-Answer table idx e.pc24 sorted (suc (length table)) 0 (length table)
        (omega arith) (omega arith)) [
          | inl (j, f, r, same, found) ↦
              let there : j ≡ i = same_place table sorted i j e f row r same in
              unfold lookup in ground arith
          | inr (gone, nowhere) ↦ absurd (nowhere i e row (omega arith) (Row-lt table i row) refl)
        ]

  -- A program counter that no row of a sorted table has is not found.
  pub lookup_miss :
      (table : List (DispatchEntry F)) (idx pc : ℕ)
      → IsSorted table
      → ((i : ℕ) (e : DispatchEntry F) → Row table i e → e.pc24 ≢ pc)
      → lookup table idx pc ≡ none
  lookup_miss table idx pc sorted nowhere =
      elim (search-Answer table idx pc sorted (suc (length table)) 0 (length table) (omega arith)
        (omega arith)) [
          | inl (j, f, r, same, found) ↦ absurd (nowhere j f r same)
          | inr (gone, all) ↦ unfold lookup in ground arith
        ]
