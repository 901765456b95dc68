-- ===== src/Dispatch/Log.antt =====
-- The dispatch log ring of runner/src/cpu_state.c: `_dispatch_log_record`, `cpu_dispatch_log_at`
-- and `cpu_dispatch_log_count`, against the whole history. `g_dispatch_log_idx` is a 32-bit count.
use mathlib.Core.List.{append-nil, append_assoc}
use snesrecomp.Base.{
  ℕ, zero, suc, ◌+◌, ◌-◌, ◌%◌, ◌^◌, ◌≤◌, ◌<◌, ◌≡◌, List, [], ◌∷◌, ◌++◌, Bool, ◌&&◌, Option, none,
  some, ltb, leb, ◌==◌, if◌then◌else◌, length, get_elem?, length-append, u32, arith, refl, ap,
  ℕ_discrete,
}

-- `DispatchLogEntry`; a function name is an opaque number.
pub record LogEntry : Type 0 where
  pub pc24 : ℕ
  pub source_pc24 : ℕ
  pub func_name : ℕ
  pub mx_idx : ℕ
  pub found : Bool
  pub mirror : Bool
  pub frame : ℕ

abbrev pub log_cap : ℕ
log_cap = 1024

pub record Log : Type 0 where
  pub slots : ℕ → LogEntry
  pub idx : ℕ

-- `_dispatch_log_record`, of an entry whose fields the caller has filled in.
unfoldable pub log_record : Log → LogEntry → Log
log_record l e = record {
  slots = λ i. if i == l.idx % log_cap then e else l.slots i;
  idx = u32 (l.idx + 1);
}

-- `cpu_dispatch_log_at`
unfoldable pub log_at : Log → ℕ → Option LogEntry
log_at l i =
    if leb l.idx i
    then none
    else if ltb log_cap l.idx && ltb i (l.idx - log_cap)
    then none
    else some (l.slots (i % log_cap))

-- The log holds the last entries of the history, oldest first.
abbrev pub Holds : List LogEntry → Log → Type 0
Holds history l =
    (l.idx ≡ length history)
    × ((i : ℕ)
        → i < length history
        → length history ≤ i + log_cap
        → get_elem? history i ≡ some (l.slots (i % log_cap)))

get_elem?-append_left :
    (xs : List LogEntry) (e : LogEntry) (i : ℕ)
    → i < length xs
    → get_elem? (xs ++ (e ∷ [])) i ≡ get_elem? xs i
get_elem?-append_left [] e i h = absurd (omega arith)
get_elem?-append_left (x ∷ xs) e zero h = refl
get_elem?-append_left (x ∷ xs) e (suc i) h = get_elem?-append_left xs e i (omega arith)

get_elem?-append_last :
    (xs : List LogEntry) (e : LogEntry) → get_elem? (xs ++ (e ∷ [])) (length xs) ≡ some e
get_elem?-append_last [] e = refl
get_elem?-append_last (x ∷ xs) e = get_elem?-append_last xs e

-- Recording an entry appends it to the history, as long as the count does not wrap.
pub log_record-Holds :
    (history : List LogEntry) (l : Log) (e : LogEntry)
    → length history + 1 < 2 ^ 32
    → Holds history l
    → Holds (history ++ (e ∷ [])) (log_record l e)
unfolding log_record
log_record-Holds history l e small (count, kept) = (
  omega (arith, length-append history (e ∷ [])),
  λ i p q.
      let n : length (history ++ (e ∷ [])) ≡ length history + 1 = length-append history (e ∷ []) in
      elim (ℕ_discrete i (length history)) [
        | yes last ↦ ground (
          arith,
          get_elem?-append_last history e,
          ap (λ k. get_elem? (history ++ (e ∷ [])) k) last,
        )
        | no older ↦ ground (
          arith,
          get_elem?-append_left history e i (omega arith),
          kept i (omega arith) (omega arith),
        )
      ],
)

-- Of a log that holds a history, an index gives the entry of that number exactly when it is one of
-- the last 1024; any other index gives nothing.
pub log_at-Holds :
    (history : List LogEntry) (l : Log) (i : ℕ)
    → Holds history l
    → log_at l i ≡ (
        if ltb i (length history) && leb (length history) (i + log_cap)
        then get_elem? history i
        else none)
unfolding log_at
log_at-Holds history l i (count, kept) = ground (arith, kept i)

-- The entries recorded in turn.
pub record_all : Log → List LogEntry → Log
record_all l [] = l
record_all l (e ∷ es) = record_all (log_record l e) es

record_all-Holds :
    (before es : List LogEntry) (l : Log)
    → length before + length es < 2 ^ 32
    → Holds before l
    → Holds (before ++ es) (record_all l es)
unfolding record_all
record_all-Holds before [] l small h = rw append-nil h
record_all-Holds before (e ∷ es) l small h = rw (← append_assoc before (e ∷ []) es) (
    record_all-Holds (before ++ (e ∷ [])) es (log_record l e)
      (omega (arith, length-append before (e ∷ []))) (log_record-Holds before l e (omega arith) h))

-- After fewer than 2^32 recorded dispatches from the empty log, `cpu_dispatch_log_at` gives the
-- dispatch of that number exactly when it is one of the last 1024, and otherwise nothing.
pub log_at-record_all :
    (es : List LogEntry) (l : Log) (i : ℕ)
    → length es < 2 ^ 32
    → l.idx ≡ 0
    → log_at (record_all l es) i
      ≡ (if ltb i (length es) && leb (length es) (i + log_cap) then get_elem? es i else none)
log_at-record_all es l i small empty =
    log_at-Holds es (record_all l es) i
      (record_all-Holds [] es l (omega arith) (empty, λ j p q. absurd (omega arith)))
