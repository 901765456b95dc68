-- ===== src/Tests/Infra.antt =====
-- Runs of the infrastructure of the compiled code.
use snesrecomp.Base.{ℕ, ◌≡◌, ◌<◌, ◌≢◌, ◌≤◌, refl, arith, ◌==◌, if◌then◌else◌}
use snesrecomp.Infra.Abandon.{IsAccounted, abandon_balanced, abandon_balanced-IsAccounted}
use snesrecomp.Infra.Stack.{resolve_ancestor_skip, scan_ancestors, resolve_ancestor_skip_nearest}
use snesrecomp.Infra.Balance.{BalEntry}
use snesrecomp.Tests.{cpu0, world0}

accounted0 : IsAccounted world0.abandons
accounted0 = record { bounded = omega arith; no_wrap = omega arith; sum = refl }

abandon_balanced-IsAccounted_example :
    (abandon_balanced world0.abandons cpu0 0x8000 0x1f0 3 7).1 ≡ record cpu0 { s = 0x1f3 }
abandon_balanced-IsAccounted_example =
    let (a, n, unknown_frame, known_frame) =
      abandon_balanced-IsAccounted world0.abandons cpu0 0x8000 0x1f0 3 7 accounted0 (omega arith) in
    known_frame (omega arith)

-- The outermost of the frames was entered at $1F8, the others at $1F0.
abbrev entry_levels : ℕ → ℕ
entry_levels i = if i == 0 then 0x1f8 else 0x1f0

resolve_ancestor_skip_nearest_example :
    (1 ≤ 2)
    × (2 < 3)
    × (3 ≤ 64)
    × (entry_levels 0 ≡ 0x1f8)
    × ((j : ℕ) → 0 < j → j < 2 → entry_levels j ≢ 0x1f8)
unfolding resolve_ancestor_skip scan_ancestors
resolve_ancestor_skip_nearest_example =
    (resolve_ancestor_skip_nearest entry_levels 3 0x1f8).0 2 refl

-- A table that has given slot 32 to the name $200.
abbrev names0 : ℕ → ℕ
names0 i = if i == 32 then 0x200 else 0

abbrev balance0 : BalEntry
balance0 = record { total_delta = 4; calls = 1; nonzero = 1; last_delta = 4 }
