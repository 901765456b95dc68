-- ===== src/Apu/Timers.antt =====
-- The rate of a timer: how the clocks of `apu_cycle` add up to counts.
use snesrecomp.Base.{
  ℕ, zero, suc, ◌+◌, ◌-◌, ◌*◌, ◌%◌, ◌^◌, ◌≤◌, ◌<◌, ◌≡◌, true, ◌==◌, if◌then◌else◌, arith, refl, ap,
  sym, dec_lt, ◌∙◌, u8,
}
use snesrecomp.Apu.{Timer}
use snesrecomp.Apu.Cycle.{tick}

-- `n` clocks.
unfoldable pub ticks : ℕ → ℕ → Timer → Timer
ticks period zero t = t
ticks period (suc n) t = ticks period n (tick period t)

ticks-add :
    (period n k : ℕ) (t : Timer) → ticks period (n + k) t ≡ ticks period k (ticks period n t)
unfolding ticks
ticks-add period zero k t = ap (λ q. ticks period q t) none_first
  where
    none_first : 0 + k ≡ k
    none_first = omega arith
ticks-add period (suc n) k t =
    ap (λ q. ticks period q t) shift ∙ ticks-add period n k (tick period t)
  where
    shift : suc n + k ≡ suc (n + k)
    shift = omega arith

-- A timer that waits only counts its clocks down.
wait :
    (period n : ℕ) (t : Timer) → t.cycles ≡ n → n < 256 → ticks period n t ≡ record t { cycles = 0 }
unfolding ticks
wait period zero t e h = ground arith
wait period (suc n) t e h = step ∙ wait period n (record t { cycles = n }) refl (omega arith)
  where
    step : ticks period n (tick period t) ≡ ticks period n (record t { cycles = n })
    step = ap (ticks period n) (unfold tick in ground arith)

-- A period of an enabled timer that is due is one step of its divider.
abbrev pub step : Timer → Timer
step t =
    if u8 (t.divider + 1) == t.target
    then record t { divider = 0; counter = (t.counter + 1) % 2 ^ 4 }
    else record t { divider = u8 (t.divider + 1) }

period-step :
    (period : ℕ) (t : Timer)
    → 1 ≤ period
    → period < 256
    → t.cycles ≡ 0
    → t.enabled ≡ true
    → ticks period period t ≡ step t
period-step zero t lo hi due on = absurd (omega arith)
period-step (suc n) t lo hi due on =
    first ∙ wait (suc n) n (record (step t) { cycles = n }) refl (omega arith) ∙ rest
  where
    begin_with : ticks (suc n) (suc n) t ≡ ticks (suc n) n (tick (suc n) t)
    begin_with = unfold ticks in refl

    stepped : tick (suc n) t ≡ record (step t) { cycles = n }
    stepped = unfold tick in ground arith

    first : ticks (suc n) (suc n) t ≡ ticks (suc n) n (record (step t) { cycles = n })
    first = begin_with ∙ ap (ticks (suc n) n) stepped

    rest : record (step t) { cycles = 0 } ≡ step t
    rest = ground arith

-- The divider counts up to the target, where a target of 0 counts as 256.
abbrev pub divisor : ℕ → ℕ
divisor target = if target == 0 then 256 else target

count-up :
    (period j : ℕ) (t : Timer)
    → 1 ≤ period
    → period < 256
    → t.cycles ≡ 0
    → t.enabled ≡ true
    → t.target < 256
    → t.divider + j < divisor t.target
    → ticks period (j * period) t ≡ record t { divider = t.divider + j }
count-up period zero t lo hi due on small room =
    ap (λ q. ticks period q t) none ∙ (unfold ticks in ground arith)
  where
    none : 0 * period ≡ 0
    none = omega arith
count-up period (suc j) t lo hi due on small room =
    ap (λ q. ticks period q t) more
    ∙ ticks-add period period (j * period) t
    ∙ ap (ticks period (j * period)) (period-step period t lo hi due on ∙ stepped)
    ∙ count-up period j (record t { divider = t.divider + 1 }) lo hi due on small (omega arith)
    ∙ same
  where
    more : suc j * period ≡ period + j * period
    more = grind arith

    stepped : step t ≡ record t { divider = t.divider + 1 }
    stepped = ground arith

    same : record t { divider = t.divider + 1 + j } ≡ record t { divider = t.divider + suc j }
    same = ground arith

-- Some of a wait.
wait_some :
    (period n k : ℕ) (t : Timer)
    → t.cycles ≡ n + k
    → n + k < 256
    → ticks period k t ≡ record t { cycles = n }
unfolding ticks
wait_some period n zero t e h = ground arith
wait_some period n (suc k) t e h =
    step ∙ wait_some period n k (record t { cycles = n + k }) refl (omega arith)
  where
    step : ticks period k (tick period t) ≡ ticks period k (record t { cycles = n + k })
    step = ap (ticks period k) (unfold tick in ground arith)

-- The step is taken by the first clock of a period.
within_period :
    (n k : ℕ) (t : Timer)
    → n + suc k < 256
    → t.cycles ≡ 0
    → t.enabled ≡ true
    → ticks (n + suc k) (suc k) t ≡ record (step t) { cycles = n }
within_period n k t hi due on =
    begin_with
    ∙ ap (ticks (n + suc k) k) stepped
    ∙ wait_some (n + suc k) n k (record (step t) { cycles = n + k }) refl (omega arith)
  where
    begin_with : ticks (n + suc k) (suc k) t ≡ ticks (n + suc k) k (tick (n + suc k) t)
    begin_with = unfold ticks in refl

    stepped : tick (n + suc k) t ≡ record (step t) { cycles = n + k }
    stepped = unfold tick in ground arith

-- The counter a number of clocks into a period, the divider being at `j`.
counter-inside :
    (period j k : ℕ) (t : Timer)
    → 1 ≤ k
    → k ≤ period
    → period < 256
    → t.cycles ≡ 0
    → t.divider ≡ 0
    → t.enabled ≡ true
    → t.target < 256
    → j < divisor t.target
    → (ticks period (j * period + k) t).counter ≡ (step (record t { divider = j })).counter
counter-inside period j zero t lo hi small due start on target inside = absurd (omega arith)
counter-inside period j (suc k) t lo hi small due start on target inside =
    let n = period - suc k in
    let whole : n + suc k ≡ period = omega arith in
    let there : record t { divider = t.divider + j } ≡ record t { divider = j } = ground arith in
    ap (λ q. q.counter)
      (ticks-add period (j * period) (suc k) t
        ∙ ap (ticks period (suc k))
            (count-up period j t (omega arith) small due on target (omega arith) ∙ there)
        ∙ ap (λ q. ticks q (suc k) (record t { divider = j })) (sym whole)
        ∙ within_period n k (record t { divider = j }) (omega arith) due on)

-- The period that a clock falls in.
split_clocks : (m p n : ℕ) → n < m * p → (j : ℕ) × (k : ℕ) × (n ≡ j * p + k) × (j < m) × (k < p)
split_clocks zero p n h = absurd (omega arith)
split_clocks (suc m) p n h =
    let more : suc m * p ≡ m * p + p = grind arith in
    elim (dec_lt n (m * p)) [
      | yes early ↦ let (j, k, e, a, b) = split_clocks m p n early in (j, k, e, omega arith, b)
      | no late ↦ (m, n - m * p, omega arith, omega arith, omega arith)
    ]

mul_pred : (d p : ℕ) → 1 ≤ d → d * p ≡ (d - 1) * p + p
mul_pred zero p h = absurd (omega arith)
mul_pred (suc n) p h = more ∙ ap (λ q. q * p + p) less
  where
    more : suc n * p ≡ n * p + p
    more = grind arith

    less : n ≡ suc n - 1
    less = omega arith

-- An enabled timer that is due and whose divider is 0 adds one to its 4-bit counter after as many
-- periods as its target says, a target of 0 being 256 periods, and is then due again with its
-- divider at 0. Up to the last of these periods the counter is as it was at every clock, and from
-- the first clock of the last period on it is the next.
pub ticks_rate :
    (period : ℕ) (t : Timer)
    → 1 ≤ period
    → period < 256
    → t.cycles ≡ 0
    → t.divider ≡ 0
    → t.enabled ≡ true
    → t.target < 256
    → (ticks period (divisor t.target * period) t ≡ record t { counter = (t.counter + 1) % 2 ^ 4 })
      × ((n : ℕ) → n ≤ (divisor t.target - 1) * period → (ticks period n t).counter ≡ t.counter)
      × ((k : ℕ)
          → 1 ≤ k
          → k ≤ period
          → (ticks period ((divisor t.target - 1) * period + k) t).counter
            ≡ (t.counter + 1) % 2 ^ 4)
ticks_rate period t lo hi due start on small = (
  ap (λ q. ticks period q t) split
      ∙ ticks-add period (last * period) period t
      ∙ ap (ticks period period) (count-up period last t lo hi due on small (ground arith))
      ∙ period-step period (record t { divider = t.divider + last }) lo hi due on
      ∙ wrapped,
  still,
  λ k a b.
      counter-inside period last k t a b hi due start on small (ground arith)
      ∙ ap (λ q. q.counter) last_step,
)
  where
    last : ℕ
    last = divisor t.target - 1

    split : divisor t.target * period ≡ last * period + period
    split = mul_pred (divisor t.target) period (ground arith)

    last_step :
        step (record t { divider = last })
        ≡ record t { divider = 0; counter = (t.counter + 1) % 2 ^ 4 }
    last_step = ground arith

    early : (j : ℕ) → j < last → (step (record t { divider = j })).counter ≡ t.counter
    early j h = ground arith

    still : (n : ℕ) → n ≤ last * period → (ticks period n t).counter ≡ t.counter
    still n h = elim (dec_lt n (last * period)) [
      | no end ↦
          ap (λ q. (ticks period q t).counter) {x = n} {y = last * period} (omega arith)
          ∙ ap (λ q. q.counter) (count-up period last t lo hi due on small (ground arith))
      | yes inside ↦
          let (j, k, e, a, b) = split_clocks last period n inside in
          ap (λ q. (ticks period q t).counter) e ∙ elim (dec_lt 0 k) [
            | yes some ↦
                counter-inside period j k t some (omega arith) hi due start on small (omega arith)
                ∙ early j a
            | no none ↦
                ap (λ q. (ticks period q t).counter) {x = j * period + k} {y = j * period}
                  (omega arith)
                ∙ ap (λ q. q.counter) (count-up period j t lo hi due on small (omega arith))
          ]
    ]

    wrapped :
        step (record t { divider = t.divider + last })
        ≡ record t { counter = (t.counter + 1) % 2 ^ 4 }
    wrapped = ground arith
