-- ===== src/Apu/Drain.antt =====
-- Draining the queue of port writes, `apu_drainPortQueue`.
use snesrecomp.Base.{
  ℕ, zero, suc, ◌+◌, ◌%◌, ◌≤◌, ◌<◌, ◌≡◌, ◌≢◌, ◌⊎◌, inl, inr, List, [], ◌∷◌, ◌++◌, Bool, true, false,
  if◌then◌else◌, dec_lt, leb, arith, refl, ap, ◌∙◌,
}
use snesrecomp.Apu.{Apu, PortWrite, queue_len, queued, apply_oldest, drain_loop, drain_port_queue}
use snesrecomp.Apu.Queue.{slots, slots-zero, apply_all, pending, IsQueue, apply_oldest-pending}

unfoldable pub all_due : ℕ → List PortWrite → Bool
all_due produced [] = true
all_due produced (w ∷ ws) = if leb w.target_sample produced then all_due produced ws else false

module _ {S : Type 0} where
  -- The writes of a list are due, and no more.
  abbrev pub Drained : Apu S → Apu S → Type 0
  Drained a a' =
      (done : List PortWrite) × (pending a ≡ done ++ pending a')
      × (a'.in_ports ≡ apply_all done a.in_ports)
      × (all_due a.produced done ≡ true)
      × ((pending a' ≡ [])
          ⊎ ((w : PortWrite) × (rest : List PortWrite) × (pending a' ≡ w ∷ rest)
              × (a.produced < w.target_sample)))

  Drained-cons :
      (a a' : Apu S)
      → let w = a.port_queue (a.q_head % queue_len) in
        pending a ≡ w ∷ pending (apply_oldest a)
        → w.target_sample ≤ a.produced
        → Drained (apply_oldest a) a'
        → Drained a a'
  unfolding apply_oldest apply_all all_due
  Drained-cons a a' oldest due (done, split, applied, ready, stop) = (
    a.port_queue (a.q_head % queue_len) ∷ done,
    oldest ∙ ap (λ ws. a.port_queue (a.q_head % queue_len) ∷ ws) split,
    applied,
    ground (arith, ready),
    stop,
  )

  drain_loop-early :
      (n : ℕ) (a : Apu S)
      → a.produced < (a.port_queue (a.q_head % queue_len)).target_sample
      → drain_loop (suc n) a ≡ a
  unfolding drain_loop
  drain_loop-early n a early = ground arith

  drain_loop-due :
      (n : ℕ) (a : Apu S)
      → a.q_head ≢ a.q_tail
      → (a.port_queue (a.q_head % queue_len)).target_sample ≤ a.produced
      → drain_loop (suc n) a ≡ drain_loop n (apply_oldest a)
  unfolding drain_loop
  drain_loop-due n a some_left due = ground arith

  drain_loop-Drained :
      (n : ℕ) (a : Apu S)
      → IsQueue a
      → queued a.q_head a.q_tail ≡ n
      → IsQueue (drain_loop n a) × Drained a (drain_loop n a)
  drain_loop-Drained zero a inv e =
      unfold drain_loop apply_all all_due in
      (
        inv,
        (
          [],
          refl,
          refl,
          refl,
          inl (ap (slots a.port_queue a.q_head) e ∙ slots-zero a.port_queue a.q_head),
        ),
      )
  drain_loop-Drained (suc n) a inv e =
      elim (dec_lt a.produced (a.port_queue (a.q_head % queue_len)).target_sample) [
        | yes early ↦
            let same : drain_loop (suc n) a ≡ a = drain_loop-early n a early in
            rw same (
              inv,
              (
                [],
                refl,
                (unfold apply_all in refl),
                (unfold all_due in refl),
                inr (w, pending (apply_oldest a), next.2, early),
              ),
            )
        | no due ↦
            let same : drain_loop (suc n) a ≡ drain_loop n (apply_oldest a) =
              drain_loop-due n a (omega arith) (omega arith) in
            let (inv', drained) =
              drain_loop-Drained n (apply_oldest a) next.0 (omega (arith, next.1)) in
            rw same
              (inv', Drained-cons a (drain_loop n (apply_oldest a)) next.2 (omega arith) drained)
      ]
    where
      w : PortWrite
      w = a.port_queue (a.q_head % queue_len)

      next :
          IsQueue (apply_oldest a)
          × (queued (apply_oldest a).q_head (apply_oldest a).q_tail + 1 ≡ queued a.q_head a.q_tail)
          × (pending a ≡ w ∷ pending (apply_oldest a))
      next = apply_oldest-pending a inv (omega arith)

  -- Draining applies, in order, the longest run of the oldest writes that are due, and leaves the
  -- others pending: afterwards the queue is empty or its oldest write is not due.
  pub drain_port_queue-Drained :
      (a : Apu S) → IsQueue a → IsQueue (drain_port_queue a) × Drained a (drain_port_queue a)
  unfolding drain_port_queue
  drain_port_queue-Drained a inv = drain_loop-Drained (queued a.q_head a.q_tail) a inv refl
