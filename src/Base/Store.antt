-- ===== src/Base/Store.antt =====
-- A byte array as a function of the offset: `g_ram`, `cart->ram`, the ROM image, APU RAM.
use Prim.Native.Nat.{ℕ}
use mathlib.Core.Path.{◌≡◌}
use mathlib.Core.Logic.{◌≢◌}
use native.Mathlib.Omega.{arith}
use snesrecomp.Base.Tests.{◌==◌, if◌then◌else◌}

abbrev pub Memory : Type 0
Memory = ℕ → ℕ

abbrev pub update : Memory → ℕ → ℕ → Memory
update m a v i = if i == a then v else m i

pub update_self : (m : Memory) (a v : ℕ) → update m a v a ≡ v
update_self m a v = ground arith

pub update_ne : (m : Memory) (a v i : ℕ) → i ≢ a → update m a v i ≡ m i
update_ne m a v i h = ground arith
