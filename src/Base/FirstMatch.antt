-- ===== src/Base/FirstMatch.antt =====
-- The linear search of a bounded table: change the first row that passes a test.
use Prim.Native.Nat.{ℕ, ◌+◌, ◌<◌}
use mathlib.Core.Path.{◌≡◌}
use mathlib.Core.Bool.{Bool}
use mathlib.Core.List.{List, [], ◌∷◌, ◌++◌}
use mathlib.Core.Option.{Option, none, some}
use native.Mathlib.Omega.{arith}
use snesrecomp.Base.Tests.{if◌then◌else◌, Option-cases}
use snesrecomp.Base.Lists.{length}
use mathlib.Core.Logic.{inl, inr}

module _ {ℓ} {A : Type ℓ} where
  -- `none` if no row passes.
  abbrev pub update_first : (A → Bool) → (A → A) → List A → Option (List A)
  update_first test f [] = none
  update_first test f (x ∷ xs) =
      let rest = update_first test f xs in
      if test x then some (f x ∷ xs) else elim rest [ none ↦ none | some ys ↦ some (x ∷ ys) ]

  abbrev pub total : (A → ℕ) → List A → ℕ
  total w [] = 0
  total w (x ∷ xs) = w x + total w xs

  pub length-update_first :
      (test : A → Bool) (f : A → A) (xs : List A) {ys : List A}
      → update_first test f xs ≡ some ys
      → length ys ≡ length xs
  length-update_first test f [] h = cc
  length-update_first test f (x ∷ xs) h = elim (Option-cases (update_first test f xs)) [
    | inl e ↦ ground arith
    | inr (zs, e) ↦ ground (arith, length-update_first test f xs e)
  ]

  pub total-update_first :
      (w : A → ℕ) (test : A → Bool) (f : A → A) (bound : ℕ)
      → ((a : A) → w a + 1 < bound → w (f a) ≡ w a + 1)
      → (xs : List A) {ys : List A} → total w xs + 1 < bound
      → update_first test f xs ≡ some ys
      → total w ys ≡ total w xs + 1
  total-update_first w test f bound up [] small h = cc
  total-update_first w test f bound up (x ∷ xs) small h =
      elim (Option-cases (update_first test f xs)) [
        | inl e ↦ ground (arith, up x (omega arith))
        | inr (zs, e) ↦
            ground
              (arith, up x (omega arith), total-update_first w test f bound up xs (omega arith) e)
      ]

  pub total-append : (w : A → ℕ) (xs ys : List A) → total w (xs ++ ys) ≡ total w xs + total w ys
  total-append w [] ys = omega arith
  total-append w (x ∷ xs) ys = omega (arith, total-append w xs ys)
