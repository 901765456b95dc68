-- ===== src/Bridge/Tier/Balance.antt =====
-- What the entries of the interpreter tier leave on the stack and in their tables.
use snesrecomp.Base.{
  ℕ, ◌+◌, ◌-◌, ◌%◌, ◌^◌, ◌≤◌, ◌<◌, ◌≡◌, List, true, false, none, arith, refl, u16,
}
use snesrecomp.Bus.Map.{ram_offset}
use snesrecomp.Bus.Access.{Registers, push8, write8}
use snesrecomp.Dispatch.Table.{mx_index, DispatchEntry}
use snesrecomp.Dispatch.Entry.{find_entry}
use snesrecomp.Dispatch.Calls.{normal, World, Body, cpu_of, log_dispatch, dispatch_pc_paired}
use snesrecomp.Bridge.Sync.{Interp}
use snesrecomp.Bridge.Run.{run_ex}
use snesrecomp.Bridge.Run.Exit.{run_ex-above}
use snesrecomp.Bridge.Tier.{push_return, tier_note, tier_run_call, dispatch_call_pc}

module _ {D : Type 0} (reg : Registers D) (table : List (DispatchEntry (Body D)))
    (run_opcode : Interp → World D → Interp × World D) (limit : ℕ) where
  tier_run_call_s :
      (w : World D) (target source : ℕ)
      → let r = tier_run_call reg table run_opcode limit w target source in
        let run = run_ex reg table run_opcode limit (tier_note w) (target % 2 ^ 24) (cpu_of w).s in
        (r.0 ≡ normal)
        × (run.ok ≡ false → (cpu_of r.1).s ≡ u16 ((cpu_of w).s + 2))
        × (run.ok ≡ true → (cpu_of r.1).s ≡ (cpu_of run.world).s)
  unfolding tier_run_call tier_note
  tier_run_call_s w target source = (refl, λ e. ground arith, λ e. ground arith)

  push_return-low :
      (w : World D) (ret : ℕ)
      → 2 ≤ (cpu_of w).s
      → (cpu_of w).s < 0x2000
      → cpu_of (push_return reg w ret) ≡ record (cpu_of w) { s = (cpu_of w).s - 2 }
  unfolding push_return push8 write8 ram_offset
  push_return-low w ret lo hi = ground arith

  -- The world in which an indirect call enters its target: the frame is pushed, the call recorded.
  abbrev pub called : World D → ℕ → ℕ → World D
  called w pc source =
      let w1 = push_return reg w (u16 (source % 2 ^ 24 + 2)) in
      log_dispatch w1 (pc % 2 ^ 24) (source % 2 ^ 24) (find_entry table (cpu_of w1) (pc % 2 ^ 24))

  -- Without a body the call is a run of the interpreter on top of the pushed frame.
  missed :
      (w : World D) (pc source : ℕ)
      → 2 ≤ (cpu_of w).s
      → (cpu_of w).s < 0x2000
      → (find_entry table (cpu_of w) (pc % 2 ^ 24)).0 ≡ none
      → (dispatch_call_pc reg table run_opcode limit w pc source
          ≡ tier_run_call reg table run_opcode limit
              (called w pc source)
              (pc % 2 ^ 24)
              (source % 2 ^ 24))
        × ((cpu_of (called w pc source)).s ≡ (cpu_of w).s - 2)
  unfolding dispatch_call_pc
  missed w pc source lo hi miss =
      let w1 = push_return reg w (u16 (source % 2 ^ 24 + 2)) in
      let low = push_return-low w (u16 (source % 2 ^ 24 + 2)) lo hi in
      let same : find_entry table (cpu_of w1) (pc % 2 ^ 24)
          ≡ find_entry table (cpu_of w) (pc % 2 ^ 24) =
        rw low (unfold find_entry mx_index in refl) in
      (ground (arith, same), ground (arith, low))

  -- An indirect call with the stack in low WRAM and room for the return frame, whose target has no
  -- body, while the bodies that paired dispatches enter return normally, returns normally. If the run
  -- of the interpreter from the target, with the frame pushed, ends at its step cap, S is exactly
  -- what it was before the call; if the run ends by itself, S is the one that the run left, which is
  -- above where the pushed frame put it.
  pub dispatch_call_pc_miss :
      (w : World D) (pc source : ℕ)
      → 2 ≤ (cpu_of w).s
      → (cpu_of w).s < 0x2000
      → (find_entry table (cpu_of w) (pc % 2 ^ 24)).0 ≡ none
      → ((w' : World D) (pc' size : ℕ) → (dispatch_pc_paired table w' pc' size).0 ≡ normal)
      → let r = dispatch_call_pc reg table run_opcode limit w pc source in
        let w2 = called w pc source in
        let run =
          run_ex reg table run_opcode limit (tier_note w2) (pc % 2 ^ 24 % 2 ^ 24) (cpu_of w2).s in
        (r.0 ≡ normal)
        × (run.ok ≡ false → (cpu_of r.1).s ≡ (cpu_of w).s)
        × (run.ok ≡ true
            → ((cpu_of r.1).s ≡ (cpu_of run.world).s) × ((cpu_of w).s - 2 < (cpu_of r.1).s))
  dispatch_call_pc_miss w pc source lo hi miss bodies =
      let w2 = called w pc source in
      let (same, s2) = missed w pc source lo hi miss in
      let (n, bail, ok) = tier_run_call_s w2 (pc % 2 ^ 24) (source % 2 ^ 24) in
      rw same (
        n,
        λ e. (let y = bail e in omega arith),
        λ e. (
          ok e,
          (let x =
                run_ex-above reg table run_opcode limit (pc % 2 ^ 24 % 2 ^ 24) (cpu_of w2).s
                  (tier_note w2) bodies e in
              let y = ok e in omega arith),
        ),
      )
