-- ===== src/Trace/Calls.antt =====
-- `RecompStackPush` and `RecompStackPop`, runner/src/common_cpu_infra.c, with everything they record:
-- the name stack, the boundary auditor, the stack-balance auditor and the snapshots. The profile of
-- the debug server only observes, and has no part. A name is the address of a string, 0 is null.
use snesrecomp.Base.{
  ℕ, suc, ◌+◌, ◌-◌, Bool, true, false, ◌&&◌, ◌||◌, List, [], ◌∷◌, Option, none, some, Memory,
  update, ltb, ◌==◌, ◌!=◌, if◌then◌else◌,
}
use snesrecomp.Cpu.{CpuState}
use snesrecomp.Infra.Stack.{stack_depth}
use snesrecomp.Infra.Balance.{BalEntry, stackbal_find, bal_account}
use snesrecomp.Infra.Snapshots.{Snapshots, capture}
use snesrecomp.Trace.{Audit, Moment, record_entry, record_exit}

-- The globals; `entry_s` is what the prologues of generated functions store, and `last_func` is
-- `none` for the text "(none)".
pub record Recorder : Type 0 where
  pub names : Memory
  pub top : ℕ
  pub last_func : Option ℕ
  pub entry_s : Memory
  pub bal_names : Memory
  pub bal : ℕ → BalEntry
  pub snap_on_func : ℕ
  pub snaps : Snapshots
  pub snap_frame : ℕ
  pub audit : Audit

-- What a call reads of the machine.
pub record World : Type 0 where
  pub cpu : CpuState
  pub frame : ℕ
  pub ram : Memory

-- `strcmp(a, b) == 0`
unfoldable pub same_text : List ℕ → List ℕ → Bool
same_text [] [] = true
same_text [] (y ∷ ys) = false
same_text (x ∷ xs) [] = false
same_text (x ∷ xs) (y ∷ ys) = (x == y) && same_text xs ys

abbrev pub moment : World → ℕ → Moment
moment w depth = record { cpu = w.cpu; frame = w.frame; depth = depth }

-- The string at an address.
module _ (strings : ℕ → List ℕ) where
  abbrev pub text_at : ℕ → Option (List ℕ)
  text_at name = if name == 0 then none else some (strings name)

  -- `if (g_recomp_snap_on_func)`
  unfoldable pub take_snapshot : World → ℕ → Recorder → Recorder
  unfolding same_text
  take_snapshot w name r =
      if (r.snap_on_func != 0)
        && ((name == r.snap_on_func) || same_text (strings r.snap_on_func) (strings name))
      then (record r {
        snap_on_func = name;
        snaps = capture w.frame w.ram r.snaps;
        snap_frame = w.frame;
      })
      else r

  -- `RecompStackPush`
  unfoldable pub stack_push : World → ℕ → Recorder → Recorder
  unfolding take_snapshot
  stack_push w name r =
      let room = ltb r.top stack_depth in
      let top' = if room then r.top + 1 else r.top in
      take_snapshot w name (record r {
        names = if room then update r.names r.top name else r.names;
        top = top';
        last_func = some name;
        audit = record_entry (moment w top') (text_at name) r.audit;
      })

  -- The accounting of a return at depth `top`.
  unfoldable pub account_return : World → ℕ → ℕ → Recorder → Recorder
  account_return w fn top r = elim (stackbal_find r.bal_names fn) [
    | none ↦ r
    | some found ↦ record r {
      bal_names = found.1;
      bal = λ i.
          if i == found.0 then bal_account (r.bal i) w.cpu.s (r.entry_s (top - 1)) else r.bal i;
    }
  ]

  -- `g_last_recomp_func = g_recomp_stack_top > 0 ? ... : "(none)"`
  unfoldable pub refresh_last : Recorder → Recorder
  refresh_last r = record r { last_func = if ltb 0 r.top then some (r.names (r.top - 1)) else none }

  -- `RecompStackPop`
  unfoldable pub stack_pop : World → Recorder → Recorder
  unfolding account_return refresh_last
  stack_pop w r =
      if ltb 0 r.top
      then (let fn = r.names (r.top - 1) in
          let r1 = account_return w fn r.top r in
          refresh_last (record r1 {
            audit = record_exit (moment w r.top) (text_at fn) r1.audit;
            top = r.top - 1;
          }))
      else refresh_last r

-- Calls of generated functions one after the other, each with the machine at its entry, the calls it
-- makes and the machine at its exit.
pub data Calls : Type 0 where
  no_calls : Calls
  call_then : ℕ → World → Calls → World → Calls → Calls

-- How deep they nest.
unfoldable pub height : Calls → ℕ
height no_calls = 0
height (call_then name before inner after rest) =
    let a = suc (height inner) in let b = height rest in if ltb a b then b else a

-- What balanced calls do to the recorders.
unfoldable pub run_calls : (ℕ → List ℕ) → Calls → Recorder → Recorder
run_calls strings no_calls r = r
run_calls strings (call_then name before inner after rest) r =
    run_calls strings rest
      (stack_pop strings after (run_calls strings inner (stack_push strings before name r)))
