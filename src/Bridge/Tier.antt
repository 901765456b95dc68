-- ===== src/Bridge/Tier.antt =====
-- The entries of the interpreter tier that compiled code calls: `interp_tier_dispatch`,
-- `interp_tier_dispatch_balanced`, `interp_tier_run_call` and `interp_tier_dispatch_bank_miss`,
-- and `cpu_dispatch_call_pc`, which falls back on the third.
pub mod Balance
use snesrecomp.Base.{ℕ, ◌+◌, ◌%◌, ◌^◌, List, none, some, ◌==◌, if◌then◌else◌, u16, byte_lo, byte_hi}
use snesrecomp.Bus.Access.{Registers, push8}
use snesrecomp.Dispatch.Table.{DispatchEntry, mx_index}
use snesrecomp.Dispatch.Entry.{find_entry}
use snesrecomp.Dispatch.Calls.{RecompReturn, normal, World, Body, cpu_of, set_cpu, log_dispatch}
use snesrecomp.Infra.Abandon.{abandon_balanced}
use snesrecomp.Bridge.Coverage.{Kind, dispatch, indirect_goto, bank_miss, tier2_record}
use snesrecomp.Bridge.Sync.{Interp}
use snesrecomp.Bridge.Run.{Run, run_ex, run}

module _ {D : Type 0} where
  -- `interp_tier_note`, less its message.
  unfoldable pub tier_note : World D → World D
  tier_note w = record w { tier_hits = w.tier_hits + 1 }

  -- `tier2_record`, on the world after a run.
  abbrev pub record_run : Run D → ℕ → ℕ → ℕ → Kind → World D
  record_run r site target mx kind = record r.world {
    coverage = tier2_record r.world.coverage site target mx kind r.ok r.world.frame;
  }

  -- `cpu_unresolved_abandon_balanced`
  abbrev pub abandon : World D → ℕ → ℕ → ℕ → World D
  abandon w site entry_s hrv =
      let r = abandon_balanced w.abandons (cpu_of w) site entry_s hrv w.frame in
      record (set_cpu w r.1) { abandons = r.0 }

module _ {D : Type 0} (reg : Registers D) where
  -- The return frame of a JSR.
  unfoldable pub push_return : World D → ℕ → World D
  push_return w ret = record w {
    machine = push8 reg (push8 reg w.machine (byte_hi ret)) (byte_lo ret);
  }

module _ {D : Type 0} (reg : Registers D) (table : List (DispatchEntry (Body D)))
    (run_opcode : Interp → World D → Interp × World D) (limit : ℕ) where
  unfoldable pub tier_dispatch : World D → ℕ → RecompReturn × World D
  unfolding tier_note
  tier_dispatch w target_pc24 =
      let w1 = tier_note w in
      let pc = target_pc24 % 2 ^ 24 in
      let r = run reg table run_opcode limit w1 pc in
      (normal, record_run r pc pc (mx_index (cpu_of w1)) dispatch)

  -- The arguments after the world are the target, the site, `entry_s` and `hrv`.
  unfoldable pub tier_dispatch_balanced : World D → ℕ → ℕ → ℕ → ℕ → RecompReturn × World D
  unfolding tier_note
  tier_dispatch_balanced w target_pc24 site_pc24 entry_s hrv =
      let w1 = tier_note w in
      let pc = target_pc24 % 2 ^ 24 in
      let kind = if target_pc24 == site_pc24 then indirect_goto else dispatch in
      let r = run_ex reg table run_opcode limit w1 pc entry_s in
      let target = if target_pc24 == site_pc24 then r.landing % 2 ^ 24 else pc in
      let w2 = record_run r (site_pc24 % 2 ^ 24) target (mx_index (cpu_of w1)) kind in
      (normal, if r.ok then w2 else abandon w2 site_pc24 entry_s hrv)

  unfoldable pub tier_run_call : World D → ℕ → ℕ → RecompReturn × World D
  unfolding tier_note
  tier_run_call w target_pc24 source_pc24 =
      let w1 = tier_note w in
      let target = target_pc24 % 2 ^ 24 in
      let s = (cpu_of w1).s in
      let r = run_ex reg table run_opcode limit w1 target s in
      let w2 = record_run r (source_pc24 % 2 ^ 24) target (mx_index (cpu_of w1)) dispatch in
      (normal, if r.ok then w2 else set_cpu w2 (record (cpu_of w2) { s = u16 (s + 2) }))

  unfoldable pub tier_bank_miss : World D → ℕ → ℕ → ℕ → RecompReturn × World D
  unfolding tier_note
  tier_bank_miss w addr_pc24 entry_s hrv =
      let w1 = tier_note w in
      let pc = addr_pc24 % 2 ^ 24 in
      let r = run_ex reg table run_opcode limit w1 pc entry_s in
      let w2 = record_run r pc pc (mx_index (cpu_of w1)) bank_miss in
      (normal, if r.ok then w2 else abandon w2 pc entry_s hrv)

  -- The push of the return frame, then the lookup, then the body or the interpreter.
  unfoldable pub dispatch_call_pc : World D → ℕ → ℕ → RecompReturn × World D
  unfolding tier_run_call
  dispatch_call_pc w pc24 source_pc24 =
      let pc = pc24 % 2 ^ 24 in
      let source = source_pc24 % 2 ^ 24 in
      let ret = u16 (source + 2) in
      let w1 = push_return reg w ret in
      let found = find_entry table (cpu_of w1) pc in
      let w2 = log_dispatch w1 pc source found in
      elim (found.0) [
        | some f ↦ f (set_cpu w2 (record (cpu_of w2) { host_return_valid = 2 }))
        | none ↦ tier_run_call w2 pc source
      ]
