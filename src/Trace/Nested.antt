-- ===== src/Trace/Nested.antt =====
-- Calls within calls: the recorders of runner/src/common_cpu_infra.c and runner/src/cpu_trace.c over
-- every balanced nest that fits their stacks, and over one that does not.
use snesrecomp.Base.{
  ℕ, suc, ◌+◌, ◌-◌, ◌<◌, ◌≤◌, ◌≡◌, refl, sym, ap, ◌∙◌, arith, List, Option, none, some, ltb,
  if◌then◌else◌, dec_lt, lt→ltb, ge→ltb, ==_refl,
}
use snesrecomp.Trace.{
  Audit, Moment, event, bd_entry, exit_normal, is_live, store_event, push_active, record_entry,
  record_exit, ring_slot,
}
use snesrecomp.Trace.Calls.{
  Recorder, World, Calls, no_calls, call_then, height, run_calls, stack_push, stack_pop,
}
use snesrecomp.Trace.Pairing.{
  IsRecording, Kept, Keeps-refl, Kept-trans, stack_push-room, pushed-Keeps, stack_pop-some,
  paired_event, call-Kept, call-event, record_exit-paired,
}

height-parts :
    (name : ℕ) (before after : World) (inner rest : Calls)
    → (suc (height inner) ≤ height (call_then name before inner after rest))
      × (height rest ≤ height (call_then name before inner after rest))
unfolding height
height-parts name before after inner rest = elim (dec_lt (suc (height inner)) (height rest)) [
  | yes h ↦ rw (lt→ltb (suc (height inner)) (height rest) h) (omega arith, omega arith)
  | no h ↦ rw (ge→ltb (suc (height inner)) (height rest) (omega arith)) (omega arith, omega arith)
]

-- The function below the top of a stack that is one deeper, or of the stack itself.
last_name :
    (s r : Recorder)
    → s.top ≡ r.top + 1
    → ((i : ℕ) → i < r.top → s.names i ≡ r.names i)
    → (if ltb 0 (s.top - 1) then some (s.names (s.top - 1 - 1)) else none)
      ≡ (if ltb 0 r.top then some (r.names (r.top - 1)) else none)
last_name s r depth same =
    let one : s.top - 1 ≡ r.top = omega (arith, depth) in
    rw (one) (elim (dec_lt 0 r.top) [
      | yes h ↦ rw (lt→ltb 0 r.top h, same (r.top - 1) (omega arith)) refl
      | no h ↦ rw (ge→ltb 0 r.top (omega arith)) refl
    ])

module _ (strings : ℕ → List ℕ) where
  pub run_calls-Kept :
      (cs : Calls) (r : Recorder)
      → IsRecording r.audit
      → height cs + r.top ≤ 64
      → height cs + r.audit.active_top ≤ 64
      → Kept r (run_calls strings cs r)
  unfolding run_calls
  run_calls-Kept no_calls r rec room deep = record {
    recording = rec;
    frames = Keeps-refl r.audit;
    depth = refl;
    names = λ i h. refl;
  }
  run_calls-Kept (call_then name before inner after rest) r rec room deep =
      let parts = height-parts name before after inner rest in
      let pushed = stack_push strings before name r in
      let p = pushed-Keeps strings before name r rec (omega arith) (omega arith) in
      let top = (stack_push-room strings before name r (omega arith)).1.0 in
      let inside = run_calls-Kept inner pushed p.0 (omega (arith, top)) (omega (arith, p.1.0)) in
      let once =
        call-Kept strings before after name r (run_calls strings inner pushed) rec (omega arith)
          (omega arith) inside in
      let back = stack_pop strings after (run_calls strings inner pushed) in
      Kept-trans r back (run_calls strings rest back) once (
        run_calls-Kept rest back once.recording (omega (arith, once.depth))
          (omega (arith, once.frames.same_top)))

  -- A call whose nest fits both stacks, with the ring allocated, not frozen and the tripwire not
  -- armed: after its exit both stacks are as before its entry, `g_last_recomp_func` is the caller
  -- again, and the event of the exit is an exit under the name of the call that carries the number
  -- of its own entry, however many calls were made inside.
  pub nested_call-Kept :
      (name : ℕ) (before after : World) (inner : Calls) (r : Recorder)
      → IsRecording r.audit
      → height inner + r.top < 64
      → height inner + r.audit.active_top < 64
      → let s = run_calls strings inner (stack_push strings before name r) in
        let t = stack_pop strings after s in
        Kept r t
        × ((t.audit.ring (ring_slot s.audit s.audit.idx) ≡ paired_event strings after name r s)
            × (t.last_func ≡ (if ltb 0 r.top then some (r.names (r.top - 1)) else none)))
  nested_call-Kept name before after inner r rec room deep =
      let pushed = stack_push strings before name r in
      let s = run_calls strings inner pushed in
      let p = pushed-Keeps strings before name r rec (omega arith) (omega arith) in
      let top = (stack_push-room strings before name r (omega arith)).1.0 in
      let inside = run_calls-Kept inner pushed p.0 (omega (arith, top)) (omega (arith, p.1.0)) in
      let kept = call-Kept strings before after name r s rec (omega arith) (omega arith) inside in
      let popped = stack_pop-some strings after s (omega (arith, top, inside.depth)) in
      let caller =
        last_name s r (omega (arith, top, inside.depth))
          (λ i h. sym (ap (λ f. f i) popped.1.1.0) ∙ kept.names i h) in
      (
        kept,
        (
          call-event strings before after name r s rec (omega arith) (omega arith) inside,
          popped.1.1.1 ∙ caller,
        ),
      )

-- With 64 active calls an entry is not stacked, and its exit takes the entry of the call around it:
-- the event carries that number, not 0, and the stack is one call short from then on.
pub full_stack-exit :
    (m m' : Moment) (name name' : Option (List ℕ)) (a : Audit)
    → IsRecording a
    → a.active_top ≡ 64
    → let b = record_entry m name a in
      let c = record_exit m' name' b in
      ((c.ring (ring_slot b b.idx)).entry_seq ≡ (a.active 63).entry_seq) × (c.active_top ≡ 63)
unfolding record_entry push_active store_event is_live event
full_stack-exit m m' name name' a rec full =
    let b = store_event (event m a.idx 0 bd_entry exit_normal name) a in
    let entry : record_entry m name a ≡ b =
      rw (rec.live, record_entry, ge→ltb a.active_top 64 (omega (arith, full))) refl in
    let recb : IsRecording b = record { live = rec.live; calm = rec.calm } in
    rw
      (entry, record_exit-paired m' name' b recb (omega (arith, full)), ==_refl (ring_slot b b.idx))
      (
        ap (λ i. (a.active i).entry_seq) {x = a.active_top - 1} {y = 63} (omega (arith, full)),
        omega (arith, full),
      )
