-- ===== src/Trace.antt =====
-- The boundary auditor of runner/src/cpu_trace.c: the ring of entries and exits of generated
-- functions, the stack that pairs them and the stack-drift tripwire, with fnv1a. What the tripwire
-- keeps of the rings and prints, and the ring of one title's player, only observe and have no part.
pub mod Calls
pub mod Pairing
pub mod Nested
pub mod Capacity
use snesrecomp.Base.{
  ℕ, zero, suc, ◌+◌, ◌-◌, ◌*◌, Bool, true, ◌&&◌, ◌||◌, not, List, [], ◌∷◌, Option, none, some, take,
  ltb, leb, ◌==◌, ◌!=◌, if◌then◌else◌, bit_and, bit_xor, u32, u64, ℤ, diff,
}
use snesrecomp.Cpu.{CpuState}

-- `fnv1a` from the hash so far.
unfoldable pub fnv_loop : List ℕ → ℕ → ℕ
fnv_loop [] h = h
fnv_loop (c ∷ cs) h = fnv_loop cs (u32 (bit_xor h c * 0x01000193))

unfoldable pub fnv1a : List ℕ → ℕ
unfolding fnv_loop
fnv1a s = fnv_loop s 0x811c9dc5

-- The loop of `round_pow2_down`: `p << 1` is 0 when it leaves 64 bits.
unfoldable pub double_loop : ℕ → ℕ → ℕ → ℕ
double_loop zero v p = p
double_loop (suc fuel) v p =
    let rest = double_loop fuel v (u64 (p * 2)) in
    if (u64 (p * 2) != 0) && leb (u64 (p * 2)) v then rest else p

unfoldable pub round_pow2_down : ℕ → ℕ
unfolding double_loop
round_pow2_down v = if v == 0 then 0 else double_loop 64 v 1

-- `BD_ENTRY` and `BD_EXIT`.
pub data EventKind : Type 0 where
  bd_entry bd_exit : EventKind

-- `BoundaryEvent`; the registers are those of `cpu`.
pub record BoundaryEvent : Type 0 where
  pub seq : ℕ
  pub entry_seq : ℕ
  pub frame : ℕ
  pub name_hash : ℕ
  pub cpu : CpuState
  pub kind : EventKind
  pub stack_depth : ℕ
  pub exit_kind : ℕ
  pub name : List ℕ

-- `ActiveCall`
pub record ActiveCall : Type 0 where
  pub entry_seq : ℕ
  pub entry_s : ℕ

-- `StackDriftTripwire`
pub record Drift : Type 0 where
  pub armed : Bool
  pub triggered : Bool
  pub frame_min : ℕ
  pub frame : ℕ
  pub s_delta : ℤ
  pub entry_s : ℕ
  pub exit_s : ℕ
  pub entry_seq : ℕ
  pub exit_seq : ℕ
  pub func_name : List ℕ
  pub cpu : Option CpuState

-- The globals of the auditor. A capacity of 0 is a ring that was not allocated.
pub record Audit : Type 0 where
  pub ring : ℕ → BoundaryEvent
  pub capacity : ℕ
  pub idx : ℕ
  pub frozen : Bool
  pub active : ℕ → ActiveCall
  pub active_top : ℕ
  pub pending_exit_kind : ℕ
  pub drift : Drift

-- `BOUNDARY_ACTIVE_DEPTH` and `BD_EXIT_KIND_NORMAL`.
abbrev pub active_depth : ℕ
active_depth = 64

abbrev pub exit_normal : ℕ
exit_normal = 0

-- What the auditor reads of the world: `g_cpu`, the frame counter and the depth of the name stack.
pub record Moment : Type 0 where
  pub cpu : CpuState
  pub frame : ℕ
  pub depth : ℕ

-- The event that both recorders fill; `name` is empty for a null pointer.
unfoldable pub event : Moment → ℕ → ℕ → EventKind → ℕ → Option (List ℕ) → BoundaryEvent
unfolding fnv1a
event m seq entry_seq kind exit_kind name = record {
  seq = seq;
  entry_seq = entry_seq;
  frame = m.frame;
  name_hash = elim name [ none ↦ 0 | some s ↦ fnv1a s ];
  cpu = m.cpu;
  kind = kind;
  stack_depth = if ltb 255 m.depth then 255 else m.depth;
  exit_kind = exit_kind;
  name = elim name [ none ↦ [] | some s ↦ take 39 s ];
}

-- `g_boundary_ring[seq & (g_boundary_capacity - 1)]`
abbrev pub ring_slot : Audit → ℕ → ℕ
ring_slot a seq = bit_and seq (a.capacity - 1)

unfoldable pub store_event : BoundaryEvent → Audit → Audit
store_event e a = record a {
  ring = λ i. if i == ring_slot a e.seq then e else a.ring i;
  idx = u64 (a.idx + 1);
}

-- A ring that is not there or is frozen records nothing.
unfoldable pub is_live : Audit → Bool
is_live a = (a.capacity != 0) && not a.frozen

unfoldable pub push_active : ℕ → ℕ → Audit → Audit
push_active seq s a =
    if ltb a.active_top active_depth
    then (record a {
      active =
          λ i. if i == a.active_top then record { entry_seq = seq; entry_s = s } else a.active i;
      active_top = a.active_top + 1;
    })
    else a

-- `boundary_audit_record_entry`
unfoldable pub record_entry : Moment → Option (List ℕ) → Audit → Audit
unfolding is_live event store_event push_active
record_entry m name a =
    if is_live a
    then push_active a.idx m.cpu.s (store_event (event m a.idx 0 bd_entry exit_normal name) a)
    else a

-- `cpu_trace_stack_drift_check`, with `g_boundary_frozen`.
unfoldable pub drift_check : Moment → ℕ → ℕ → ℕ → ℕ → List ℕ → Audit → Audit
drift_check m entry_s entry_seq exit_seq exit_kind name a =
    if (not a.drift.armed || a.drift.triggered)
      || ((exit_kind != exit_normal) || (ltb m.frame a.drift.frame_min || (entry_s == m.cpu.s)))
    then a
    else (record a {
      drift = record a.drift {
        triggered = true;
        frame = m.frame;
        s_delta = diff m.cpu.s entry_s;
        entry_s = entry_s;
        exit_s = m.cpu.s;
        entry_seq = entry_seq;
        exit_seq = exit_seq;
        func_name = name;
        cpu = some m.cpu;
      };
      frozen = true;
    })

-- The exit of a call that the stack has, and of one that it has not.
unfoldable pub exit_paired : Moment → Option (List ℕ) → Audit → Audit
unfolding event store_event drift_check
exit_paired m name a =
    let call = a.active (a.active_top - 1) in
    let e = event m a.idx call.entry_seq bd_exit a.pending_exit_kind name in
    drift_check m call.entry_s call.entry_seq a.idx e.exit_kind e.name
      (record (store_event e a) { active_top = a.active_top - 1; pending_exit_kind = exit_normal })

unfoldable pub exit_unpaired : Moment → Option (List ℕ) → Audit → Audit
unfolding event store_event
exit_unpaired m name a = record (store_event (event m a.idx 0 bd_exit a.pending_exit_kind name) a) {
  pending_exit_kind = exit_normal;
}

-- `boundary_audit_record_exit`
unfoldable pub record_exit : Moment → Option (List ℕ) → Audit → Audit
unfolding is_live exit_paired exit_unpaired
record_exit m name a =
    if is_live a
    then (if ltb 0 a.active_top then exit_paired m name a else exit_unpaired m name a)
    else a

-- `cpu_trace_mark_nlr_exit`
unfoldable pub mark_nlr_exit : ℕ → Audit → Audit
mark_nlr_exit kind a = record a { pending_exit_kind = kind }
