-- ===== src/Bridge/Run/Exit.antt =====
-- How a run of `interp_bridge_run_ex` ends.
use snesrecomp.Base.{
  ℕ, ◌<◌, ◌≡◌, ◌⊎◌, zero, suc, List, true, false, arith, refl, Bool-cases, inl, inr,
}
use snesrecomp.Cpu.{CpuState, mirrors_to_p}
use snesrecomp.Cpu.Flags.{InSync}
use snesrecomp.Bus.Access.{Registers}
use snesrecomp.Dispatch.Table.{DispatchEntry}
use snesrecomp.Dispatch.Calls.{normal, World, Body, cpu_of, set_cpu, dispatch_pc_paired}
use snesrecomp.Bridge.Sync.{
  Interp, sync_cpu_to_interp, sync_interp_to_cpu, sync_interp_to_cpu-InSync,
}
use snesrecomp.Bridge.Run.{
  entry_interp, is_normal, pc_of, frame_size, is_call, Pass, go, leave, Run, pass, run_one,
  after_opcode, bounce, run_loop, run_ex,
}

Pass-cases :
    {D : Type 0} (p : Pass D)
    → ((t : Interp) × (w : World D) × (p ≡ go t w)) ⊎ ((w : World D) × (p ≡ leave w))
Pass-cases (go t w) = inl (t, w, refl)
Pass-cases (leave w) = inr (w, refl)

-- Three lemmas on where a pass that leaves the loop comes from.
module _ {D : Type 0} (reg : Registers D) (table : List (DispatchEntry (Body D)))
    (run_opcode : Interp → World D → Interp × World D) where
  -- A compiled body that was entered for a call has returned past it.
  abbrev Unwound : Type 0
  Unwound =
      (w : World D) × (pc : ℕ) × (size : ℕ) × (is_normal (dispatch_pc_paired table w pc size).0
        ≡ false)

  abbrev Left : ℕ → World D → Type 0
  Left s w =
      (t : Interp) × (c : CpuState) × (cpu_of w ≡ sync_interp_to_cpu t c) × ((s < t.sp) ⊎ Unwound)

  bounce-leave :
      (s pc op : ℕ) (t : Interp) (w w' : World D)
      → bounce reg table run_opcode pc op t w ≡ leave w'
      → Left s w'
  unfolding bounce
  bounce-leave s pc op t w w' e =
      let w1 = set_cpu w (sync_interp_to_cpu t (cpu_of w)) in
      let r = dispatch_pc_paired table w1 (pc_of t) (frame_size op) in
      (
        sync_cpu_to_interp (cpu_of r.1) t,
        cpu_of r.1,
        ground arith,
        inr (w1, pc_of t, frame_size op, ground arith),
      )

  after_opcode-leave :
      (s pc op : ℕ) (t : Interp) (w w' : World D)
      → after_opcode reg table run_opcode s pc op t w ≡ leave w'
      → Left s w'
  unfolding after_opcode
  after_opcode-leave s pc op t w w' e = elim (Bool-cases (is_call op)) [
    | inl call ↦ bounce-leave s pc op t w w' (ground arith)
    | inr other ↦ (t, cpu_of w, ground arith, inl (ground arith))
  ]

  pass-leave :
      (s : ℕ) (t : Interp) (w w' : World D) → pass reg table run_opcode s t w ≡ leave w' → Left s w'
  unfolding pass
  pass-leave s t w w' e =
      let r = run_one reg table run_opcode t w in
      after_opcode-leave s (pc_of t) r.0 r.1.0 r.1.1 w' e

  run_loop-go :
      (s n landing : ℕ) (t t' : Interp) (w w' : World D)
      → pass reg table run_opcode s t w ≡ go t' w'
      → run_loop reg table run_opcode s (suc n) landing t w
        ≡ run_loop reg table run_opcode s n landing t' w'
  unfolding run_loop
  run_loop-go s n landing t t' w w' e = ground (arith, e)

  run_loop-leave :
      (s n landing : ℕ) (t : Interp) (w w' : World D)
      → pass reg table run_opcode s t w ≡ leave w'
      → run_loop reg table run_opcode s (suc n) landing t w
        ≡ record { ok = true; landing = landing; world = w' }
  unfolding run_loop
  run_loop-leave s n landing t w w' e = ground (arith, e)

  abbrev Ended : ℕ → Run D → Type 0
  Ended s r =
      (t : Interp) × (c : CpuState) × (cpu_of r.world ≡ sync_interp_to_cpu t c)
      × (r.ok ≡ true → (s < t.sp) ⊎ Unwound)

  run_loop-Ended :
      (s n landing : ℕ) (t : Interp) (w : World D)
      → Ended s (run_loop reg table run_opcode s n landing t w)
  run_loop-Ended s zero landing t w = unfold run_loop in (t, cpu_of w, refl, λ p. absurd (cc))
  run_loop-Ended s (suc n) landing t w = elim (Pass-cases (pass reg table run_opcode s t w)) [
    | inl (t', w', e) ↦ rw (run_loop-go s n landing t t' w w' e) (run_loop-Ended s n landing t' w')
    | inr (w', e) ↦
        let (t', c, same, why) = pass-leave s t w w' e in
        rw (run_loop-leave s n landing t w w' e) (t', c, same, λ p. why)
  ]

  abbrev entry_of : World D → ℕ → Interp
  entry_of w entry = entry_interp reg table run_opcode w entry

  abbrev landing_of : World D → ℕ → ℕ
  landing_of w entry = pc_of (run_one reg table run_opcode (entry_of w entry) w).1.0

  -- However the run ends, by a return, by a compiled body that unwinds or at the step cap, P and
  -- the mirrors of the CPU say the same.
  pub run_ex-InSync :
      (limit entry s_exit : ℕ) (w : World D)
      → InSync (cpu_of (run_ex reg table run_opcode limit w entry s_exit).world)
  unfolding run_ex
  run_ex-InSync limit entry s_exit w =
      let (t, c, same, why) =
        run_loop-Ended s_exit limit (landing_of w entry) (entry_of w entry) w in
      rw same (sync_interp_to_cpu-InSync t c)

  -- If every compiled body that a call enters returns normally, then a run that ends before its
  -- step cap has popped S strictly above its watermark.
  pub run_ex-above :
      (limit entry s_exit : ℕ) (w : World D)
      → ((w' : World D) (pc size : ℕ) → (dispatch_pc_paired table w' pc size).0 ≡ normal)
      → (run_ex reg table run_opcode limit w entry s_exit).ok ≡ true
      → s_exit < (cpu_of (run_ex reg table run_opcode limit w entry s_exit).world).s
  unfolding run_ex
  run_ex-above limit entry s_exit w bodies ok =
      let (t, c, same, why) =
        run_loop-Ended s_exit limit (landing_of w entry) (entry_of w entry) w in
      elim (why ok) [
        | inl above ↦
            let x : (sync_interp_to_cpu t c).s ≡ t.sp =
              unfold sync_interp_to_cpu mirrors_to_p in refl in
            rw same (rw x above)
        | inr (w1, pc, size, bad) ↦ let n = bodies w1 pc size in absurd (ground arith)
      ]
