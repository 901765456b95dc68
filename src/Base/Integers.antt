-- ===== src/Base/Integers.antt =====
-- Small integers over the native numbers: sums of a few terms, compared.
use Prim.Native.Nat.{ℕ, suc, ◌+◌, ◌-◌}
use snesrecomp.Base.Tests.{ltb, leb, Bool-cases, if◌then◌else◌}
use mathlib.Core.Bool.{Bool, true, false}
use mathlib.Core.Logic.{inl, inr}
use mathlib.Core.Path.{◌≡◌, refl, sym, ◌∙◌}
use native.Mathlib.Omega.{arith}

-- `negsuc n` is the number below 0 by `n + 1`.
pub data ℤ : Type 0 where
  pos : ℕ → ℤ
  negsuc : ℕ → ℤ

-- The difference of two numbers.
abbrev pub diff : ℕ → ℕ → ℤ
diff a b = if leb b a then pos (a - b) else negsuc (b - a - 1)

infixl 60 ◌+ℤ◌
abbrev pub ◌+ℤ◌ : ℤ → ℤ → ℤ
pos a +ℤ pos b = pos (a + b)
pos a +ℤ negsuc b = diff a (suc b)
negsuc a +ℤ pos b = diff b (suc a)
negsuc a +ℤ negsuc b = negsuc (suc (a + b))

abbrev pub ltb_int : ℤ → ℤ → Bool
ltb_int (pos a) (pos b) = ltb a b
ltb_int (pos a) (negsuc b) = false
ltb_int (negsuc a) (pos b) = true
ltb_int (negsuc a) (negsuc b) = ltb b a

pub ltb_int_irrefl : (a : ℤ) → ltb_int a a ≡ false
ltb_int_irrefl (pos a) = ground arith
ltb_int_irrefl (negsuc a) = ground arith

-- What is not above a number is not above a larger one.
pub ltb_int_trans : (a b c : ℤ) → ltb_int a c ≡ false → ltb_int a b ≡ true → ltb_int b c ≡ false
ltb_int_trans (pos a) (pos b) (pos c) h g = ground arith
ltb_int_trans (pos a) (pos b) (negsuc c) h g = refl
ltb_int_trans (pos a) (negsuc b) c h g = ground arith
ltb_int_trans (negsuc a) (pos b) (pos c) h g = ground arith
ltb_int_trans (negsuc a) (pos b) (negsuc c) h g = refl
ltb_int_trans (negsuc a) (negsuc b) (pos c) h g = ground arith
ltb_int_trans (negsuc a) (negsuc b) (negsuc c) h g = ground arith

pub ltb_int_asym : (a b : ℤ) → ltb_int a b ≡ true → ltb_int b a ≡ false
ltb_int_asym a b h = ltb_int_trans a b a (ltb_int_irrefl a) h

pub ltb_int-both : (a b c : ℤ) → ltb_int a b ≡ true → ltb_int b c ≡ true → ltb_int a c ≡ true
ltb_int-both a b c h g = elim (Bool-cases (ltb_int a c)) [
  | inl e ↦ e
  | inr e ↦ e ∙ sym (ltb_int_trans a b c e h) ∙ g
]
