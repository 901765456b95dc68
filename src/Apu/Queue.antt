-- ===== src/Apu/Queue.antt =====
-- The queue of port writes is a list of pending writes, which are applied in order.
use snesrecomp.Base.{
  ℕ, zero, suc, ◌+◌, ◌-◌, ◌%◌, ◌^◌, ◌≤◌, ◌<◌, ◌≡◌, ◌≢◌, List, [], ◌∷◌, ◌++◌, ◌==◌, if◌then◌else◌,
  dec_lt, Memory, length, arith, refl, ap, sym, ◌∙◌, u32,
}
use snesrecomp.Apu.{
  Apu, port_write, push_write, PortWrite, queue_len, queued, apply_port_write, apply_oldest,
  schedule_port_write,
}

-- `n` slots of the ring from `head` on.
unfoldable pub slots : (ℕ → PortWrite) → ℕ → ℕ → List PortWrite
slots q head zero = []
slots q head (suc n) = q (head % queue_len) ∷ slots q (head + 1) n

-- Applying writes in turn.
unfoldable pub apply_all : List PortWrite → Memory → Memory
apply_all [] ports = ports
apply_all (w ∷ ws) ports = apply_all ws (apply_port_write ports w)

slots-mod :
    (q : ℕ → PortWrite) (head other n : ℕ)
    → head % queue_len ≡ other % queue_len
    → slots q head n ≡ slots q other n
unfolding slots
slots-mod q head other zero e = refl
slots-mod q head other (suc n) e =
    ground (arith, slots-mod q (head + 1) (other + 1) n (omega arith))

slots-cons :
    (q : ℕ → PortWrite) (head n : ℕ)
    → slots q head (n + 1) ≡ q (head % queue_len) ∷ slots q (u32 (head + 1)) n
slots-cons q head n =
    ap (slots q head) one_more
    ∙ first
    ∙ ap (λ ws. q (head % queue_len) ∷ ws) (slots-mod q (head + 1) (u32 (head + 1)) n (omega arith))
  where
    one_more : n + 1 ≡ suc n
    one_more = omega arith

    first : slots q head (suc n) ≡ q (head % queue_len) ∷ slots q (head + 1) n
    first = unfold slots in refl

slots-snoc :
    (q : ℕ → PortWrite) (head n : ℕ)
    → slots q head (suc n) ≡ slots q head n ++ (q ((head + n) % queue_len) ∷ [])
unfolding slots
slots-snoc q head zero = ground arith
slots-snoc q head (suc n) = ap (λ ws. q (head % queue_len) ∷ ws) (slots-snoc q (head + 1) n ∙ same)
  where
    same :
        slots q (head + 1) n ++ (q ((head + 1 + n) % queue_len) ∷ [])
        ≡ slots q (head + 1) n ++ (q ((head + suc n) % queue_len) ∷ [])
    same = ground arith

-- A store to the slot at distance `m` leaves the `n` slots before it.
slots-before :
    (q : ℕ → PortWrite) (w : PortWrite) (head tail n m : ℕ)
    → n ≤ m
    → m < 128
    → tail % queue_len ≡ (head + m) % queue_len
    → slots (λ i. if i == tail % queue_len then w else q i) head n ≡ slots q head n
unfolding slots
slots-before q w head tail zero m h g e = refl
slots-before q w head tail (suc n) m h g e =
    ground
      (arith, slots-before q w (head + 1) tail n (m - 1) (omega arith) (omega arith) (omega arith))

pub slots-zero : (q : ℕ → PortWrite) (head : ℕ) → slots q head 0 ≡ []
unfolding slots
slots-zero q head = refl

length-slots : (q : ℕ → PortWrite) (head n : ℕ) → length (slots q head n) ≡ n
unfolding slots
length-slots q head zero = refl
length-slots q head (suc n) = ap suc (length-slots q (head + 1) n)

module _ {S : Type 0} where
  -- The queue's state: the indices are 32-bit words, at most 128 apart.
  pub record IsQueue (a : Apu S) : Type 0 where
    pub head_lt : a.q_head < 2 ^ 32
    pub tail_lt : a.q_tail < 2 ^ 32
    pub bounded : queued a.q_head a.q_tail ≤ 128

  -- The pending writes, oldest first.
  abbrev pub pending : Apu S → List PortWrite
  pending a = slots a.port_queue a.q_head (queued a.q_head a.q_tail)

  pub apply_oldest-pending :
      (a : Apu S)
      → IsQueue a
      → queued a.q_head a.q_tail ≢ 0
      → IsQueue (apply_oldest a)
        × (queued (apply_oldest a).q_head (apply_oldest a).q_tail + 1 ≡ queued a.q_head a.q_tail)
        × (pending a ≡ a.port_queue (a.q_head % queue_len) ∷ pending (apply_oldest a))
  unfolding apply_oldest
  apply_oldest-pending a inv some_left = (
    record { head_lt = omega arith; tail_lt = inv.tail_lt; bounded = omega (arith, inv.bounded) },
    less,
    split,
  )
    where
      less : queued (u32 (a.q_head + 1)) a.q_tail + 1 ≡ queued a.q_head a.q_tail
      less = omega (arith, inv.head_lt, inv.tail_lt)

      split :
          slots a.port_queue a.q_head (queued a.q_head a.q_tail)
          ≡ a.port_queue (a.q_head % queue_len)
            ∷ slots a.port_queue (u32 (a.q_head + 1)) (queued (u32 (a.q_head + 1)) a.q_tail)
      split =
          ap (slots a.port_queue a.q_head) (sym less)
          ∙ slots-cons a.port_queue a.q_head (queued (u32 (a.q_head + 1)) a.q_tail)

  -- A write is put at the end of a queue that has room.
  push-pending :
      (a : Apu S) (w : PortWrite)
      → IsQueue a
      → queued a.q_head a.q_tail < 128
      → let a' = push_write a w in IsQueue a' × (pending a' ≡ pending a ++ (w ∷ []))
  unfolding push_write
  push-pending a w inv room = (
    record { head_lt = inv.head_lt; tail_lt = omega arith; bounded = omega (arith, more) },
    ap (slots q' a.q_head) (omega (arith, more))
        ∙ slots-snoc q' a.q_head n
        ∙ ap (λ ws. ws ++ (q' ((a.q_head + n) % queue_len) ∷ []))
            (slots-before a.port_queue w a.q_head a.q_tail n n (omega arith) room there)
        ∙ ap (λ x. slots a.port_queue a.q_head n ++ (x ∷ [])) last,
  )
    where
      n : ℕ
      n = queued a.q_head a.q_tail

      q' : ℕ → PortWrite
      q' i = if i == a.q_tail % queue_len then w else a.port_queue i

      more : queued a.q_head (u32 (a.q_tail + 1)) ≡ queued a.q_head a.q_tail + 1
      more = omega (arith, inv.head_lt, inv.tail_lt)

      there : a.q_tail % queue_len ≡ (a.q_head + queued a.q_head a.q_tail) % queue_len
      there = omega (arith, inv.head_lt, inv.tail_lt)

      last : q' ((a.q_head + n) % queue_len) ≡ w
      last = ground (arith, there)

  -- A write that is scheduled goes to the end of the pending writes. If the queue is full, its
  -- oldest write, and only that, is applied first, so the order is kept.
  pub schedule_port_write-pending :
      (a : Apu S) (port val target : ℕ)
      → IsQueue a
      → let a' = schedule_port_write a port val target in
        let w = port_write port val target in
        IsQueue a'
        × (length (pending a) < 128
            → (pending a' ≡ pending a ++ (w ∷ [])) × (a'.in_ports ≡ a.in_ports))
        × (length (pending a) ≡ 128
            → (x : PortWrite) × (rest : List PortWrite) × (pending a ≡ x ∷ rest)
              × (pending a' ≡ rest ++ (w ∷ []))
              × (a'.in_ports ≡ apply_port_write a.in_ports x))
  schedule_port_write-pending a port val target inv = elim (dec_lt (queued a.q_head a.q_tail) 128) [
    | yes room ↦
        let w = port_write port val target in
        let same : schedule_port_write a port val target ≡ push_write a w =
          unfold schedule_port_write in ground arith in
        let (inv', pushed) = push-pending a w inv room in
        let kept : (push_write a w).in_ports ≡ a.in_ports = unfold push_write in refl in
        rw same (inv', λ p. (pushed, kept), λ p. absurd (omega (arith, size)))
    | no full ↦
        let w = port_write port val target in
        let same : schedule_port_write a port val target ≡ push_write (apply_oldest a) w =
          unfold schedule_port_write in ground arith in
        let (inv1, less, oldest) = apply_oldest-pending a inv (omega arith) in
        let (inv2, pushed) = push-pending (apply_oldest a) w inv1 (omega (arith, inv.bounded)) in
        let applied : (push_write (apply_oldest a) w).in_ports
            ≡ apply_port_write a.in_ports (a.port_queue (a.q_head % queue_len)) =
          unfold push_write apply_oldest in refl in
        rw same (
          inv2,
          λ p. absurd (omega (arith, size)),
          λ p. (
            a.port_queue (a.q_head % queue_len),
            pending (apply_oldest a),
            oldest,
            pushed,
            applied,
          ),
        )
  ]
    where
      size : length (pending a) ≡ queued a.q_head a.q_tail
      size = length-slots a.port_queue a.q_head (queued a.q_head a.q_tail)
