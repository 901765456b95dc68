-- ===== src/Tests/Dispatch.antt =====
-- Runs of the dispatcher.
use snesrecomp.Base.{zero, suc, ◌≡◌, [], ◌∷◌, none, some, refl, arith}
use snesrecomp.Dispatch.Table.{lookup, mx_index}
use snesrecomp.Dispatch.Search.{IsSorted, lookup_hit}
use snesrecomp.Dispatch.Entry.{find_entry, flip_mirror}
use snesrecomp.Dispatch.Log.{log_at, record_all, log_at-record_all}
use snesrecomp.Dispatch.Calls.{normal, dispatch_pc_from, dispatch_pc_from_miss}
use snesrecomp.Tests.{cpu0, world0, table0, row0, body0, log0, entry0}

pub table0-IsSorted : IsSorted table0
table0-IsSorted zero zero e f p q h = absurd (omega arith)
table0-IsSorted zero (suc zero) e f p q h = ground arith
table0-IsSorted zero (suc (suc j)) e f p q h = absurd (cc)
table0-IsSorted (suc i) zero e f p q h = absurd (omega arith)
table0-IsSorted (suc i) (suc zero) e f p q h = absurd (omega arith)
table0-IsSorted (suc i) (suc (suc j)) e f p q h = absurd (cc)

lookup_hit_example : lookup table0 3 0x8000 ≡ some body0
lookup_hit_example = lookup_hit table0 3 0 row0 table0-IsSorted refl

log_at-record_all_example : log_at (record_all log0 (entry0 ∷ [])) 0 ≡ some entry0
log_at-record_all_example = log_at-record_all (entry0 ∷ []) log0 0 (omega arith) refl

unknown : (find_entry table0 cpu0 0x123456).0 ≡ none
unfolding find_entry lookup mx_index flip_mirror
unknown = refl

dispatch_pc_from_miss_example :
    ((dispatch_pc_from table0 world0 0x123456 0x1f0 0x8010).0 ≡ normal)
    × ((dispatch_pc_from table0 world0 0x123456 0x1f0 0x8010).1.machine
        ≡ record world0.machine { cpu = record cpu0 { s = 0x1f0 } })
    × ((dispatch_pc_from table0 world0 0x123456 0x1f0 0x8010).1.frame ≡ 7)
dispatch_pc_from_miss_example = dispatch_pc_from_miss table0 world0 0x123456 0x1f0 0x8010 unknown
