-- ===== src/Dispatch/Calls.antt =====
-- `cpu_dispatch_pc_from`, `cpu_dispatch_pc` and `cpu_dispatch_pc_paired`. A compiled body is
-- generated code: a parameter, any function of the state of the runtime.
use snesrecomp.Base.{ℕ, ◌%◌, ◌^◌, ◌<◌, ◌≡◌, List, Bool, false, Option, none, some, arith, ap, ◌∙◌}
use snesrecomp.Cpu.{CpuState}
use snesrecomp.Bus.Access.{Machine}
use snesrecomp.Bridge.Coverage.{Coverage}
use snesrecomp.Infra.Abandon.{Abandons}
use snesrecomp.Dispatch.Table.{DispatchEntry, mx_index}
use snesrecomp.Dispatch.Search.{IsSorted, Row, lookup_hit}
use snesrecomp.Dispatch.Entry.{find_entry, is_some}
use snesrecomp.Dispatch.Log.{Log, log_record}

-- `RecompReturn`
pub data RecompReturn : Type 0 where
  normal skip_1 skip_2 skip_3 : RecompReturn

-- The machine, and what the runtime records of its own: the dispatch log, the frame number, the
-- name of the running function, and the tables of interp_bridge.c and common_cpu_infra.c.
pub record World (D : Type 0) : Type 0 where
  pub machine : Machine D
  pub log : Log
  pub frame : ℕ
  pub func_name : ℕ
  pub coverage : Coverage
  pub tier_hits : ℕ
  pub abandons : Abandons

abbrev pub Body : Type 0 → Type 0
Body D = World D → RecompReturn × World D

module _ {D : Type 0} where
  abbrev pub cpu_of : World D → CpuState
  cpu_of w = w.machine.cpu

  abbrev pub set_cpu : World D → CpuState → World D
  set_cpu w c = record w { machine = record w.machine { cpu = c } }

  -- The entry that a dispatch records.
  abbrev pub log_dispatch : World D → ℕ → ℕ → Option (Body D) × Bool → World D
  log_dispatch w pc source found = record w {
    log = log_record w.log (record {
      pc24 = pc;
      source_pc24 = source;
      func_name = w.func_name;
      mx_idx = mx_index (cpu_of w);
      found = is_some found.0;
      mirror = found.1;
      frame = w.frame;
    });
  }

  module _ (table : List (DispatchEntry (Body D))) where
    -- The third argument is `entry_s_for_miss_restore`.
    unfoldable pub dispatch_pc_from : World D → ℕ → ℕ → ℕ → RecompReturn × World D
    dispatch_pc_from w pc24 entry_s source =
        let pc = pc24 % 2 ^ 24 in
        let found = find_entry table (cpu_of w) pc in
        let w' = log_dispatch w pc (source % 2 ^ 24) found in
        elim (found.0) [
          | none ↦ (normal, set_cpu w' (record (cpu_of w') { s = entry_s }))
          | some f ↦ f (set_cpu w' (record (cpu_of w') { host_return_valid = 0 }))
        ]

    unfoldable pub dispatch_pc : World D → ℕ → ℕ → RecompReturn × World D
    unfolding dispatch_pc_from
    dispatch_pc w pc24 entry_s = dispatch_pc_from w pc24 entry_s 0xffffff

    -- The last argument is the size of the return frame that the interpreter has pushed.
    unfoldable pub dispatch_pc_paired : World D → ℕ → ℕ → RecompReturn × World D
    dispatch_pc_paired w pc24 frame_size =
        let pc = pc24 % 2 ^ 24 in
        let found = find_entry table (cpu_of w) pc in
        let w' = log_dispatch w pc 0xffffff found in
        elim (found.0) [
          | none ↦ (normal, w')
          | some f ↦ f (set_cpu w' (record (cpu_of w') { host_return_valid = frame_size }))
        ]

    -- A dispatch to a program counter that has no body returns normally and restores S to the
    -- value that the caller gave; of the rest of the state only the log changes.
    pub dispatch_pc_from_miss :
        (w : World D) (pc24 entry_s source : ℕ)
        → (find_entry table (cpu_of w) (pc24 % 2 ^ 24)).0 ≡ none
        → let r = dispatch_pc_from w pc24 entry_s source in
          (r.0 ≡ normal)
          × (r.1.machine ≡ record w.machine { cpu = record w.machine.cpu { s = entry_s } })
          × (r.1.frame ≡ w.frame)
    unfolding dispatch_pc_from
    dispatch_pc_from_miss w pc24 entry_s source h = (ground arith, ground arith, ground arith)

    find_entry-Row :
        (c : CpuState) (i : ℕ) (e : DispatchEntry (Body D)) (f : Body D)
        → IsSorted table
        → Row table i e
        → e.variant (mx_index c) ≡ some f
        → find_entry table c e.pc24 ≡ (some f, false)
    unfolding find_entry
    find_entry-Row c i e f sorted row v =
        ground (arith, lookup_hit table (mx_index c) i e sorted row)

    -- Over a sorted table a dispatch to the program counter of a row runs the body that the row
    -- has for the live M and X flags: with no paired caller, or for a paired call with the size of
    -- the frame in `host_return_valid`. The registers are otherwise as they were.
    pub dispatch_hit :
        (w : World D) (i entry_s frame_size : ℕ) (e : DispatchEntry (Body D)) (f : Body D)
        → IsSorted table
        → Row table i e
        → e.pc24 < 2 ^ 24
        → e.variant (mx_index (cpu_of w)) ≡ some f
        → let w' = log_dispatch w e.pc24 0xffffff (some f, false) in
          (dispatch_pc w e.pc24 entry_s
            ≡ f (set_cpu w' (record (cpu_of w) { host_return_valid = 0 })))
          × (dispatch_pc_paired w e.pc24 frame_size
              ≡ f (set_cpu w' (record (cpu_of w) { host_return_valid = frame_size })))
    unfolding dispatch_pc dispatch_pc_paired
    dispatch_hit w i entry_s frame_size e f sorted row small v =
        let found : find_entry table (cpu_of w) (e.pc24 % 2 ^ 24) ≡ (some f, false) =
          ap (find_entry table (cpu_of w)) (omega arith)
          ∙ find_entry-Row (cpu_of w) i e f sorted row v in
        let same : e.pc24 % 2 ^ 24 ≡ e.pc24 = omega arith in (ground arith, ground arith)
