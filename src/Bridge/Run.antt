-- ===== src/Bridge/Run.antt =====
-- `interp_bridge_run_ex` and `interp_bridge_run`: the interpreter from an entry until a return pops
-- S above a watermark. `interp816_runOpcode` belongs to the vendored interpreter: a parameter, any
-- function of its registers and the runtime. The traces only observe, and have no part.
pub mod Exit
use snesrecomp.Base.{
  ℕ, ◌+◌, ◌*◌, ◌/◌, ◌%◌, ◌^◌, zero, suc, List, Bool, true, false, ◌||◌, Option, none, some, ltb,
  ◌==◌, if◌then◌else◌,
}
use snesrecomp.Bus.Access.{Registers, read8}
use snesrecomp.Dispatch.Table.{DispatchEntry}
use snesrecomp.Dispatch.Entry.{has_entry}
use snesrecomp.Dispatch.Calls.{
  RecompReturn, normal, skip_1, skip_2, skip_3, World, Body, cpu_of, set_cpu, dispatch_pc_paired,
}
use snesrecomp.Bridge.Sync.{Interp, sync_cpu_to_interp, sync_interp_to_cpu}

-- `interp_step_cap`: the value of SNESRECOMP_INTERP_STEP_CAP, if it is set, at least 1000.
unfoldable pub step_cap : Option ℕ → ℕ
step_cap none = 2000000
step_cap (some v) = if ltb v 1000 then 1000 else v

abbrev pub is_normal : RecompReturn → Bool
is_normal normal = true
is_normal skip_1 = false
is_normal skip_2 = false
is_normal skip_3 = false

abbrev pub pc_of : Interp → ℕ
pc_of t = t.k * 2 ^ 16 + t.pc

abbrev pub set_pc : Interp → ℕ → Interp
set_pc t pc24 = record t { k = pc24 / 2 ^ 16 % 2 ^ 8; pc = pc24 % 2 ^ 16 }

abbrev pub is_call : ℕ → Bool
is_call op = (op == 0x20) || ((op == 0x22) || (op == 0xfc))

abbrev pub is_ret : ℕ → Bool
is_ret op = (op == 0x60) || (op == 0x6b)

abbrev pub call_len : ℕ → ℕ
call_len op = if op == 0x22 then 4 else 3

abbrev pub frame_size : ℕ → ℕ
frame_size op = if op == 0x22 then 3 else 2

-- `memset(&in, 0, sizeof in)`
abbrev pub interp_zero : Interp
interp_zero = record {
  a = 0;
  x = 0;
  y = 0;
  sp = 0;
  pc = 0;
  dp = 0;
  k = 0;
  db = 0;
  c = false;
  z = false;
  v = false;
  n = false;
  i = false;
  d = false;
  xf = false;
  mf = false;
  e = false;
  irq_wanted = false;
  nmi_wanted = false;
  waiting = false;
  stopped = false;
  cycles_used = 0;
}

-- What one pass of the loop does: go on, or leave it with the value 1.
pub data Pass (D : Type 0) : Type 0 where
  go : Interp → World D → Pass D
  leave : World D → Pass D

-- The result: the value returned, the landing address and the state of the runtime.
pub record Run (D : Type 0) : Type 0 where
  pub ok : Bool
  pub landing : ℕ
  pub world : World D

module _ {D : Type 0} (reg : Registers D) (table : List (DispatchEntry (Body D)))
    (run_opcode : Interp → World D → Interp × World D) where
  -- The opcode that the loop is at, and the state after it has run.
  unfoldable pub run_one : Interp → World D → ℕ × (Interp × World D)
  run_one t w =
      let r = read8 reg w.machine (pc_of t / 2 ^ 16 % 2 ^ 8) (pc_of t % 2 ^ 16) in
      (r.0, run_opcode t (record w { machine = r.1 }))

  -- The loop's `is_call` branch, after the opcode at `pc_before` has run.
  unfoldable pub bounce : ℕ → ℕ → Interp → World D → Pass D
  bounce pc_before op t w =
      let w' = set_cpu w (sync_interp_to_cpu t (cpu_of w)) in
      if has_entry table (cpu_of w') (pc_of t)
      then (let r = dispatch_pc_paired table w' (pc_of t) (frame_size op) in
          let t' = sync_cpu_to_interp (cpu_of r.1) t in
          if is_normal r.0
          then go (set_pc t' ((pc_before + call_len op) % 2 ^ 24)) r.1
          else leave (set_cpu r.1 (sync_interp_to_cpu t' (cpu_of r.1))))
      else go t w'

  -- The rest of one pass of the loop.
  unfoldable pub after_opcode : ℕ → ℕ → ℕ → Interp → World D → Pass D
  unfolding bounce
  after_opcode s_enter pc_before op t w =
      if is_call op
      then bounce pc_before op t w
      else if is_ret op
      then if ltb s_enter t.sp then leave (set_cpu w (sync_interp_to_cpu t (cpu_of w))) else go t w
      else go t w

  unfoldable pub pass : ℕ → Interp → World D → Pass D
  unfolding run_one after_opcode
  pass s_enter t w = let r = run_one t w in after_opcode s_enter (pc_of t) r.0 r.1.0 r.1.1

  -- The loop, with the steps that the cap leaves and the landing so far.
  unfoldable pub run_loop : ℕ → ℕ → ℕ → Interp → World D → Run D
  run_loop s_enter zero landing t w = record {
    ok = false;
    landing = landing;
    world = set_cpu w (sync_interp_to_cpu t (cpu_of w));
  }
  run_loop s_enter (suc n) landing t w = elim (pass s_enter t w) [
    | go t' w' ↦ run_loop s_enter n landing t' w'
    | leave w' ↦ record { ok = true; landing = landing; world = w' }
  ]

  abbrev pub entry_interp : World D → ℕ → Interp
  entry_interp w entry_pc24 = set_pc (sync_cpu_to_interp (cpu_of w) interp_zero) entry_pc24

  -- The cap is the first argument after the parameters. The landing is the address after the
  -- first opcode, which always runs, since the cap is at least 1000.
  unfoldable pub run_ex : ℕ → World D → ℕ → ℕ → Run D
  unfolding run_one
  run_ex limit w entry_pc24 s_exit =
      let t = entry_interp w entry_pc24 in run_loop s_exit limit (pc_of (run_one t w).1.0) t w

  unfoldable pub run : ℕ → World D → ℕ → Run D
  run limit w entry_pc24 = run_ex limit w entry_pc24 (cpu_of w).s
