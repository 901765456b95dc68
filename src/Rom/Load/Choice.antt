-- ===== src/Rom/Load/Choice.antt =====
-- The header that `snes_loadRom` (runner/src/snes/snes_other.c) uses is the best one.
use snesrecomp.Base.{
  ℕ, suc, ◌+◌, ◌<◌, ◌≡◌, refl, arith, List, [], ◌∷◌, All, get_or, length, true, false, Bool-cases,
  ◌⊎◌, inl, inr, ltb_int, ltb_int_irrefl, ltb_int_asym, ltb_int-both, sym, ltb_int_trans, pos, ℤ,
}
use snesrecomp.Rom.Header.{CartHeader, blank_header}
use snesrecomp.Rom.Load.{read_headers, pick, used, chosen}

-- No header of the list has a higher score.
abbrev pub NoneAbove : ℤ → List CartHeader → Type 0
NoneAbove max hs = All (λ h. ltb_int max h.score ≡ false) hs

NoneAbove-trans :
    (a b : ℤ) (hs : List CartHeader) → ltb_int a b ≡ true → NoneAbove a hs → NoneAbove b hs
NoneAbove-trans a b [] h all = all
NoneAbove-trans a b (g ∷ hs) h all =
    (ltb_int_trans a b g.score all.0 h, NoneAbove-trans a b hs h all.1)

-- What the loop leaves: the old index with nothing better in the list, or a better entry of the
-- list with nothing better still.
abbrev pub IsPicked : List CartHeader → ℕ → ℕ → ℤ → Type 0
IsPicked hs i u max =
    (d : ℕ) × ((u ≡ i + d)
      × ((d < length hs)
          × ((ltb_int max (get_or hs d blank_header).score ≡ true)
              × NoneAbove (get_or hs d blank_header).score hs)))

IsPicked-step :
    (h : CartHeader) (hs : List CartHeader) (i u : ℕ) (max : ℤ)
    → ltb_int max h.score ≡ false
    → IsPicked hs (suc i) u max
    → IsPicked (h ∷ hs) i u max
IsPicked-step h hs i u max below s = (
  suc s.0,
  (
    omega (arith, s.1.0),
    (
      omega (arith, s.1.1.0),
      (
        s.1.1.1.0,
        (ltb_int_trans max (get_or hs s.0 blank_header).score h.score below s.1.1.1.0, s.1.1.1.1),
      ),
    ),
  ),
)

IsPicked-better :
    (h : CartHeader) (hs : List CartHeader) (i u : ℕ) (max : ℤ)
    → ltb_int max h.score ≡ true
    → IsPicked hs (suc i) u h.score
    → IsPicked (h ∷ hs) i u max
IsPicked-better h hs i u max above s =
    let best = (get_or hs s.0 blank_header).score in
    let over = s.1.1.1.0 in
    (
      suc s.0,
      (
        omega (arith, s.1.0),
        (
          omega (arith, s.1.1.0),
          (ltb_int-both max h.score best above over, (ltb_int_asym h.score best over, s.1.1.1.1)),
        ),
      ),
    )

at_index :
    (hs : List CartHeader) (d u : ℕ)
    → d ≡ u
    → d < length hs
    → ltb_int (pos 0) (get_or hs d blank_header).score ≡ true
    → NoneAbove (get_or hs d blank_header).score hs
    → (u < length hs)
      × ((ltb_int (pos 0) (get_or hs u blank_header).score ≡ true)
          × NoneAbove (get_or hs u blank_header).score hs)
at_index hs d u e inside above all = rw (sym e) (inside, (above, all))

pick_lem :
    (hs : List CartHeader) (i u : ℕ) (max : ℤ)
    → ((pick hs i u max ≡ u) × NoneAbove max hs) ⊎ IsPicked hs i (pick hs i u max) max
unfolding pick
pick_lem [] i u max = inl (refl, tt)
pick_lem (h ∷ hs) i u max = elim (Bool-cases (ltb_int max h.score)) [
  | inl b ↦ rw (b) (elim (pick_lem hs (suc i) i h.score) [
    | inl s ↦ inr (0, (omega (arith, s.0), (omega arith, (b, (ltb_int_irrefl h.score, s.1)))))
    | inr s ↦ inr (IsPicked-better h hs i (pick hs (suc i) i h.score) max b s)
  ])
  | inr b ↦ rw (b) (elim (pick_lem hs (suc i) u max) [
    | inl s ↦ inl (s.0, (refl, s.1))
    | inr s ↦ inr (IsPicked-step h hs i (pick hs (suc i) u max) max b s)
  ])
]

-- `snes_loadRom` uses the first header unless another scores above zero, and then no header scores
-- above the one it uses.
pub chosen-NoneAbove :
    (bytes : List ℕ)
    → ((used bytes ≡ 0) × NoneAbove (pos 0) (read_headers bytes))
      ⊎ ((used bytes < 4)
          × ((ltb_int (pos 0) (chosen bytes).score ≡ true)
              × NoneAbove (chosen bytes).score (read_headers bytes)))
unfolding used chosen read_headers
chosen-NoneAbove bytes =
    let hs = read_headers bytes in
    elim (pick_lem hs 0 0 (pos 0)) [
      | inl s ↦ inl s
      | inr s ↦
          inr (at_index hs s.0 (used bytes) (omega (arith, s.1.0)) s.1.1.0 s.1.1.1.0 s.1.1.1.1)
    ]
