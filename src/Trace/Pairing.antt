-- ===== src/Trace/Pairing.antt =====
-- Entries and exits are paired: the stacks of runner/src/common_cpu_infra.c and
-- runner/src/cpu_trace.c over balanced calls.
use snesrecomp.Base.{
  ℕ, ◌+◌, ◌-◌, ◌<◌, ◌≡◌, refl, ap, ◌∙◌, arith, true, false, ◌&&◌, ◌||◌, List, Option, none, some,
  update, update_self, update_ne, ltb, ◌==◌, ◌!=◌, if◌then◌else◌, lt→ltb, ==_refl, ==_ne,
  Bool-cases, Option-cases, inl, inr,
}
use snesrecomp.Trace.{
  Audit, Moment, BoundaryEvent, bd_exit, event, is_live, store_event, push_active, record_entry,
  record_exit, exit_paired, drift_check, ring_slot, exit_normal,
}
use snesrecomp.Infra.Balance.{stackbal_find}
use snesrecomp.Trace.Calls.{
  Recorder, World, moment, text_at, take_snapshot, same_text, stack_push, stack_pop, account_return,
  refresh_last,
}

-- The ring is there and not frozen, and the tripwire is not armed.
pub record IsRecording (a : Audit) : Type 0 where
  pub live : is_live a ≡ true
  pub calm : a.drift.armed ≡ false

-- The frames of the first audit are still there in the second.
pub record Keeps (a b : Audit) : Type 0 where
  pub same_top : b.active_top ≡ a.active_top
  pub same_frames : (i : ℕ) → i < a.active_top → b.active i ≡ a.active i

pub Keeps-refl : (a : Audit) → Keeps a a
Keeps-refl a = record { same_top = refl; same_frames = λ i h. refl }

Keeps-trans : (a b c : Audit) → Keeps a b → Keeps b c → Keeps a c
Keeps-trans a b c p q = record {
  same_top = q.same_top ∙ p.same_top;
  same_frames = λ i h. q.same_frames i (omega (arith, p.same_top)) ∙ p.same_frames i h;
}

-- The event of an exit with a call on the stack.
abbrev pub exit_event : Moment → Option (List ℕ) → Audit → BoundaryEvent
exit_event m name a =
    event m a.idx (a.active (a.active_top - 1)).entry_seq bd_exit a.pending_exit_kind name

abbrev pub exited : Moment → Option (List ℕ) → Audit → Audit
exited m name a = record (store_event (exit_event m name a) a) {
  active_top = a.active_top - 1;
  pending_exit_kind = exit_normal;
}

module _ (m : Moment) (name : Option (List ℕ)) (a : Audit) (rec : IsRecording a) where
  -- An entry with room on the stack of active calls.
  record_entry-room :
      a.active_top < 64
      → IsRecording (record_entry m name a)
        × (((record_entry m name a).active_top ≡ a.active_top + 1)
            × (((i : ℕ) → i < a.active_top → (record_entry m name a).active i ≡ a.active i)
                × (((record_entry m name a).active a.active_top).entry_seq ≡ a.idx)))
  unfolding record_entry push_active store_event is_live
  record_entry-room room =
      rw (rec.live, record_entry, lt→ltb a.active_top 64 room)
        (
          record { live = rec.live; calm = rec.calm },
          (
            refl,
            (λ i h. rw (==_ne i a.active_top (omega arith)) refl, rw (==_refl a.active_top) refl),
          ),
        )

  drift_check-calm :
      (entry_s entry_seq exit_seq exit_kind : ℕ) (text : List ℕ) (b : Audit)
      → b.drift.armed ≡ false
      → drift_check m entry_s entry_seq exit_seq exit_kind text b ≡ b
  unfolding drift_check
  drift_check-calm entry_s entry_seq exit_seq exit_kind text b h = rw (h, drift_check) refl

  -- An exit with a call on the stack.
  pub record_exit-paired : 0 < a.active_top → record_exit m name a ≡ exited m name a
  unfolding record_exit exit_paired store_event event
  record_exit-paired h =
      let call = a.active (a.active_top - 1) in
      rw (rec.live, record_exit, lt→ltb 0 a.active_top h)
        (drift_check-calm call.entry_s call.entry_seq a.idx a.pending_exit_kind
          (exit_event m name a).name (exited m name a) rec.calm)

-- What balanced calls leave of the recorders.
pub record Kept (r s : Recorder) : Type 0 where
  pub recording : IsRecording s.audit
  pub frames : Keeps r.audit s.audit
  pub depth : s.top ≡ r.top
  pub names : (i : ℕ) → i < r.top → s.names i ≡ r.names i

pub Kept-trans : (a b c : Recorder) → Kept a b → Kept b c → Kept a c
Kept-trans a b c p q = record {
  recording = q.recording;
  frames = Keeps-trans a.audit b.audit c.audit p.frames q.frames;
  depth = q.depth ∙ p.depth;
  names = λ i h. q.names i (omega (arith, p.depth)) ∙ p.names i h;
}

module _ (strings : ℕ → List ℕ) where
  take_snapshot-rest :
      (w : World) (name : ℕ) (r : Recorder)
      → ((take_snapshot strings w name r).audit ≡ r.audit)
        × (((take_snapshot strings w name r).top ≡ r.top)
            × ((take_snapshot strings w name r).names ≡ r.names))
  unfolding take_snapshot
  take_snapshot-rest w name r =
      elim (Bool-cases (
        (r.snap_on_func != 0)
        && ((name == r.snap_on_func) || same_text (strings r.snap_on_func) (strings name)))) [
          | inl e ↦ rw (e) (refl, (refl, refl))
          | inr e ↦ rw (e) (refl, (refl, refl))
        ]

  account_return-rest :
      (w : World) (fn top : ℕ) (r : Recorder)
      → ((account_return strings w fn top r).audit ≡ r.audit)
        × (((account_return strings w fn top r).top ≡ r.top)
            × ((account_return strings w fn top r).names ≡ r.names))
  unfolding account_return
  account_return-rest w fn top r = elim (Option-cases (stackbal_find r.bal_names fn)) [
    | inl e ↦ rw (e, account_return) (refl, (refl, refl))
    | inr (found, e) ↦ rw (e, account_return) (refl, (refl, refl))
  ]

  -- The recorders before the snapshot of a push with room.
  abbrev pushed : World → ℕ → Recorder → Recorder
  pushed w name r = record r {
    names = update r.names r.top name;
    top = r.top + 1;
    last_func = some name;
    audit = record_entry (moment w (r.top + 1)) (text_at strings name) r.audit;
  }

  stack_push-pushed :
      (w : World) (name : ℕ) (r : Recorder)
      → r.top < 64
      → stack_push strings w name r ≡ take_snapshot strings w name (pushed w name r)
  unfolding stack_push
  stack_push-pushed w name r room = rw (lt→ltb r.top 64 room, stack_push) refl

  pub stack_push-room :
      (w : World) (name : ℕ) (r : Recorder)
      → r.top < 64
      → ((stack_push strings w name r).audit ≡ (pushed w name r).audit)
        × (((stack_push strings w name r).top ≡ r.top + 1)
            × ((stack_push strings w name r).names ≡ update r.names r.top name))
  stack_push-room w name r room =
      rw (stack_push-pushed w name r room) (take_snapshot-rest w name (pushed w name r))

  -- The recorders behind a pop that has something to pop.
  pub stack_pop-some :
      (w : World) (r : Recorder)
      → 0 < r.top
      → let s = stack_pop strings w r in
        (s.audit ≡ record_exit (moment w r.top) (text_at strings (r.names (r.top - 1))) r.audit)
        × ((s.top ≡ r.top - 1)
            × ((s.names ≡ r.names)
                × (s.last_func
                    ≡ (if ltb 0 (r.top - 1) then some (r.names (r.top - 1 - 1)) else none))))
  unfolding stack_pop refresh_last
  stack_pop-some w r h =
      let q = account_return-rest w (r.names (r.top - 1)) r.top r in
      rw (lt→ltb 0 r.top h, stack_pop)
        (
          ap (record_exit (moment w r.top) (text_at strings (r.names (r.top - 1)))) q.0,
          (
            refl,
            (q.1.1, ap (λ f. if ltb 0 (r.top - 1) then some (f (r.top - 1 - 1)) else none) q.1.1),
          ),
        )

  pub pushed-Keeps :
      (w : World) (name : ℕ) (r : Recorder)
      → IsRecording r.audit
      → r.top < 64
      → r.audit.active_top < 64
      → let s = stack_push strings w name r in
        IsRecording s.audit
        × ((s.audit.active_top ≡ r.audit.active_top + 1)
            × (((i : ℕ) → i < r.audit.active_top → s.audit.active i ≡ r.audit.active i)
                × ((s.audit.active r.audit.active_top).entry_seq ≡ r.audit.idx)))
  pushed-Keeps w name r rec room deep =
      rw ((stack_push-room w name r room).0)
        (record_entry-room (moment w (r.top + 1)) (text_at strings name) r.audit rec deep)

  -- The exit event of a call, between the recorders before its entry and before its exit.
  abbrev pub paired_event : World → ℕ → Recorder → Recorder → BoundaryEvent
  paired_event after name before inner =
      event (moment after (before.top + 1)) inner.audit.idx before.audit.idx bd_exit
        inner.audit.pending_exit_kind (text_at strings name)

  -- A pop behind calls that kept what the push left.
  module _ (before after : World) (name : ℕ) (r s : Recorder) (rec : IsRecording r.audit)
      (room : r.top < 64) (deep : r.audit.active_top < 64)
      (kept : Kept (stack_push strings before name r) s) where
    p_names : (stack_push strings before name r).names ≡ update r.names r.top name
    p_names = (stack_push-room before name r room).1.1

    depth_one : s.top ≡ r.top + 1
    depth_one = kept.depth ∙ (stack_push-room before name r room).1.0

    active_one : s.audit.active_top ≡ r.audit.active_top + 1
    active_one = kept.frames.same_top ∙ (pushed-Keeps before name r rec room deep).1.0

    name_back : s.names (s.top - 1) ≡ name
    name_back =
        ap s.names {x = s.top - 1} {y = r.top} (omega (arith, depth_one))
        ∙ kept.names r.top (omega (arith, (stack_push-room before name r room).1.0))
        ∙ ap (λ f. f r.top) p_names
        ∙ update_self r.names r.top name

    seq_back : (s.audit.active (s.audit.active_top - 1)).entry_seq ≡ r.audit.idx
    seq_back =
        let p = pushed-Keeps before name r rec room deep in
        ap (λ i. (s.audit.active i).entry_seq) {x = s.audit.active_top - 1} {y = r.audit.active_top}
          (omega (arith, active_one))
        ∙ ap (λ c. c.entry_seq) (kept.frames.same_frames r.audit.active_top (omega (arith, p.1.0)))
        ∙ p.1.1.1

    popped :
        (stack_pop strings after s).audit
        ≡ exited (moment after s.top) (text_at strings (s.names (s.top - 1))) s.audit
    popped =
        (stack_pop-some after s (omega (arith, depth_one))).0
        ∙ record_exit-paired (moment after s.top) (text_at strings (s.names (s.top - 1))) s.audit
            kept.recording (omega (arith, active_one))

    -- The call leaves the recorders as it found them.
    pub call-Kept : Kept r (stack_pop strings after s)
    unfolding store_event is_live
    call-Kept =
        let p = pushed-Keeps before name r rec room deep in
        let q = stack_pop-some after s (omega (arith, depth_one)) in
        record {
          recording =
              rw (popped) (record { live = kept.recording.live; calm = kept.recording.calm });
          frames = rw (popped) (record {
            same_top = omega (arith, active_one);
            same_frames = λ i h. kept.frames.same_frames i (omega (arith, p.1.0)) ∙ p.1.1.0 i h;
          });
          depth = omega (arith, q.1.0, depth_one);
          names = λ i h.
              ap (λ f. f i) q.1.1.0
              ∙ kept.names i (omega (arith, (stack_push-room before name r room).1.0))
              ∙ ap (λ f. f i) p_names
              ∙ update_ne r.names r.top name i (omega arith);
        }

    -- Its exit event carries the number of its entry event.
    pub call-event :
        (stack_pop strings after s).audit.ring (ring_slot s.audit s.audit.idx)
        ≡ paired_event after name r s
    unfolding store_event event
    call-event =
        rw (popped, ==_refl (ring_slot s.audit s.audit.idx), name_back, seq_back, depth_one) refl
