-- ===== src/Dma/Finish.antt =====
-- The loop after a store to $420B ends, and when.
use snesrecomp.Base.{
  ℕ, zero, suc, ◌+◌, ◌^◌, ◌<◌, ◌≡◌, ◌≢◌, true, false, Option, none, some, arith, refl, inl, inr, ap,
  ◌∙◌,
}
use snesrecomp.Dma.Transfer.{
  System, Port, first_active, do_dma, cycle, drain, start_dma, general_dma,
}
use snesrecomp.Dma.Cycles.{calls, calls_from, IsQuiet, IsReady, IsClear, calls-do_dma}

module _ {B : Type 0} (spared : ℕ → ℕ → Type 0) (port : Port B) (quiet : IsQuiet spared port) where
  cycle-busy : (s : System B) → s.dma.dma_busy ≡ true → cycle port s ≡ (true, do_dma port s)
  unfolding cycle
  cycle-busy s h = ground arith

  cycle-idle : (s : System B) → s.dma.dma_busy ≡ false → cycle port s ≡ (false, s)
  unfolding cycle
  cycle-idle s h = ground arith

  drain-busy :
      (n : ℕ) (s : System B)
      → s.dma.dma_busy ≡ true
      → drain port (suc n) s ≡ drain port n (do_dma port s)
  unfolding drain
  drain-busy n s h = ground (arith, cycle-busy s h)

  drain-idle : (n : ℕ) (s : System B) → s.dma.dma_busy ≡ false → drain port (suc n) s ≡ some s
  unfolding drain
  drain-idle n s h = ground (arith, cycle-idle s h)

  abbrev Finished : Option (System B) → Type 0
  Finished r =
      (s : System B) × (r ≡ some s)
      × (s.dma.dma_busy ≡ false)
      × (first_active s.dma.channel 8 0 ≡ none)

  drain-Finished :
      (n : ℕ) (s : System B)
      → IsReady spared s.dma
      → s.dma.dma_busy ≡ true
      → calls s.dma ≡ n
      → Finished (drain port (suc n) s) × (drain port n s ≡ none)
  drain-Finished zero s ready busy e = absurd (unfold calls in omega arith)
  drain-Finished (suc n) s ready busy e =
      let (ready', next) = calls-do_dma spared port quiet s ready busy in
      elim next [
        | inl (still, less) ↦
            let (done, early) = drain-Finished n (do_dma port s) ready' still (omega arith) in
            (rw (drain-busy (suc n) s busy) done, drain-busy n s busy ∙ early)
        | inr (idle, last, none_left) ↦
            let zero_left : n ≡ 0 = omega arith in
            (
              (
                do_dma port s,
                drain-busy (suc n) s busy ∙ drain-idle n (do_dma port s) idle,
                idle,
                none_left,
              ),
              drain-busy n s busy
                  ∙ (ap (λ k. drain port k (do_dma port s)) zero_left ∙ (unfold drain in refl)),
            )
      ]

  -- A store of a non-zero byte to $420B, with 16-bit sizes and addresses and the timer at 0, where no
  -- access of the B bus reaches the controller and none of the A bus at the addresses that the
  -- started channels transfer: the transfer ends, with no active channel and the controller not
  -- busy. It takes as many calls of `dma_doDma` as `calls` says, and not one fewer: for each channel
  -- that is started 4 for each byte and 4 more, and 9 for the whole transfer.
  pub general_dma-Finished :
      (s : System B) (v : ℕ)
      → ((i : ℕ) → (s.dma.channel i).size < 2 ^ 16)
      → ((i : ℕ) → (s.dma.channel i).a_adr < 2 ^ 16)
      → ((i : ℕ)
          → ((start_dma s.dma v false).channel i).dma_active ≡ true
          → IsClear spared ((start_dma s.dma v false).channel i))
      → s.dma.dma_timer ≡ 0
      → v ≢ 0
      → let n = calls (start_dma s.dma v false) in
        Finished (general_dma port (suc n) s v)
        × (general_dma port n s v ≡ none)
        × (n ≡ calls_from (start_dma s.dma v false).channel 8 0 + 9)
  unfolding general_dma
  general_dma-Finished s v sizes adrs banks idle some_channel =
      let (done, early) =
        drain-Finished _ (record s { dma = start_dma s.dma v false }) ready busy refl in
      (done, early, count)
    where
      busy : (start_dma s.dma v false).dma_busy ≡ true
      busy = unfold start_dma in ground arith

      ready : IsReady spared (start_dma s.dma v false)
      ready =
          unfold start_dma in
          record {
            sizes = λ i. ground (arith, sizes i);
            adrs = λ i. ground (arith, adrs i);
            banks = banks;
            even = ground arith;
            small = ground arith;
          }

      timer : (start_dma s.dma v false).dma_timer ≡ 16
      timer = unfold start_dma in ground arith

      count : calls (start_dma s.dma v false) ≡ calls_from (start_dma s.dma v false).channel 8 0 + 9
      count = unfold calls in omega (arith, timer)
