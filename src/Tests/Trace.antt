-- ===== src/Tests/Trace.antt =====
-- The recorders over three calls, two of them inside the first, and over one call too many.
use snesrecomp.Base.{ℕ, suc, ◌^◌, ◌≤◌, ◌<◌, ◌≡◌, refl, arith, List, [], ◌∷◌, none, some, false, pos}
use snesrecomp.Infra.Snapshots.{empty}
use snesrecomp.Trace.{
  Audit, BoundaryEvent, Moment, bd_entry, is_live, record_entry, record_exit, ring_slot, fnv1a,
  fnv_loop, round_pow2_down,
}
use snesrecomp.Trace.Calls.{
  Recorder, World, Calls, no_calls, call_then, height, run_calls, stack_push, stack_pop,
}
use snesrecomp.Trace.Pairing.{IsRecording, Kept, paired_event}
use snesrecomp.Trace.Nested.{nested_call-Kept, full_stack-exit}
use snesrecomp.Trace.Capacity.{round_pow2_down-power}
use snesrecomp.Tests.{cpu0}

-- The value that the FNV documents give for "a".
fnv1a_a : fnv1a (0x61 ∷ []) ≡ 0xe40c292c
unfolding fnv1a fnv_loop
fnv1a_a = refl

abbrev event0 : BoundaryEvent
event0 = record {
  seq = 0;
  entry_seq = 0;
  frame = 0;
  name_hash = 0;
  cpu = cpu0;
  kind = bd_entry;
  stack_depth = 0;
  exit_kind = 0;
  name = [];
}

-- The stack of active calls holds `n`.
abbrev audit_at : ℕ → Audit
audit_at n = record {
  ring = λ i. event0;
  capacity = 2 ^ 14;
  idx = 100;
  frozen = false;
  active = λ i. record { entry_seq = i; entry_s = 0x1ff };
  active_top = n;
  pending_exit_kind = 0;
  drift = record {
    armed = false;
    triggered = false;
    frame_min = 0;
    frame = 0;
    s_delta = pos 0;
    entry_s = 0;
    exit_s = 0;
    entry_seq = 0;
    exit_seq = 0;
    func_name = [];
    cpu = none;
  };
}

recording0 : (n : ℕ) → IsRecording (audit_at n)
unfolding is_live
recording0 n = record { live = refl; calm = refl }

abbrev recorder0 : Recorder
recorder0 = record {
  names = λ i. 0x40;
  top = 1;
  last_func = some 0x40;
  entry_s = λ i. 0x1ff;
  bal_names = λ i. 0;
  bal = λ i. record { total_delta = 0; calls = 0; nonzero = 0; last_delta = 0 };
  snap_on_func = 0;
  snaps = empty;
  snap_frame = 0;
  audit = audit_at 1;
}

abbrev machine_then : World
machine_then = record { cpu = cpu0; frame = 3; ram = λ i. 0 }

abbrev two_inside : Calls
two_inside =
    call_then 0x50 machine_then no_calls machine_then
      (call_then 0x60 machine_then no_calls machine_then no_calls)

abbrev strings0 : ℕ → List ℕ
strings0 = λ p. p ∷ []

abbrev inside0 : Recorder
inside0 = run_calls strings0 two_inside (stack_push strings0 machine_then 0x48 recorder0)

nested_call-Kept_example :
    Kept recorder0 (stack_pop strings0 machine_then inside0)
    × (((stack_pop strings0 machine_then inside0).audit.ring
            (ring_slot inside0.audit inside0.audit.idx)
          ≡ paired_event strings0 machine_then 0x48 recorder0 inside0)
        × ((stack_pop strings0 machine_then inside0).last_func ≡ some 0x40))
unfolding height
nested_call-Kept_example =
    nested_call-Kept strings0 0x48 machine_then machine_then two_inside recorder0 (recording0 1)
      (omega arith) (omega arith)

abbrev moment0 : Moment
moment0 = record { cpu = cpu0; frame = 3; depth = 64 }

abbrev entered0 : Audit
entered0 = record_entry moment0 none (audit_at 64)

full_stack-exit_example :
    (((record_exit moment0 none entered0).ring (ring_slot entered0 entered0.idx)).entry_seq ≡ 63)
    × ((record_exit moment0 none entered0).active_top ≡ 63)
full_stack-exit_example =
    full_stack-exit moment0 moment0 none none (audit_at 64) (recording0 64) refl

round_pow2_down-power_example :
    (k : ℕ) × ((round_pow2_down 100000 ≡ 2 ^ k) × ((2 ^ k ≤ 100000) × (100000 < 2 ^ suc k)))
round_pow2_down-power_example = round_pow2_down-power 100000 (omega arith) (omega arith)
