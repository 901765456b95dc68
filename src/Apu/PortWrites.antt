-- ===== src/Apu/PortWrites.antt =====
-- `RtlApuWrite` in runner/src/common_rtl.c as a whole: the catch-up, the target, the schedule. The
-- catch-up, in floating point, is a parameter: any function of the APU.
use snesrecomp.Base.{
  ℕ, ◌+◌, ◌*◌, ◌%◌, ◌^◌, ◌≤◌, ◌<◌, ◌≡◌, ◌≢◌, ◌⊎◌, [], ◌∷◌, ◌++◌, true, length, Option, some, none,
  leb, le→leb, ◌&&◌, if◌then◌else◌, arith, refl, ◌∙◌, ap, sym,
}
use snesrecomp.Apu.{Apu, port_write, schedule_port_write}
use snesrecomp.Apu.Queue.{IsQueue, pending, schedule_port_write-pending}
use snesrecomp.Apu.PortClock.{PortClock, consume_quantum, target_of, note_write, target_of-bounds}

-- What the history of a port says after a write.
noted :
    (c : PortClock) (q now produced port val : ℕ)
    → let c' = note_write c q now produced port val in
      (c'.last_target port ≡ target_of c q now produced port val)
      × (c'.last_val port ≡ val)
      × (c'.last_valid port ≡ true)
unfolding note_write
noted c q now produced port val = (ground arith, ground arith, ground arith)

module _ {S : Type 0} (catch_up : Apu S → Apu S) where
  -- The arguments after the state are the largest chunk consumed, the wall clock, the address and
  -- the value.
  unfoldable pub pace_write : PortClock → Apu S → ℕ → ℕ → ℕ → ℕ → PortClock × Apu S
  pace_write c a max_chunk now_ns adr val =
      let a1 = catch_up a in
      let q = consume_quantum max_chunk in
      let port = adr % 2 ^ 2 in
      (
        note_write c q now_ns a1.produced port val,
        schedule_port_write a1 port val (target_of c q now_ns a1.produced port val),
      )

  -- `RtlApuWrite`; `none` is the assertion that fails.
  unfoldable pub rtl_apu_write : PortClock → Apu S → ℕ → ℕ → ℕ → ℕ → Option (PortClock × Apu S)
  rtl_apu_write c a max_chunk now_ns adr val =
      if leb 0x2140 adr && leb adr 0x2143
      then some (pace_write c a max_chunk now_ns adr val)
      else none

  rtl_apu_write-port :
      (c : PortClock) (a : Apu S) (max_chunk now_ns adr val : ℕ)
      → 0x2140 ≤ adr
      → adr ≤ 0x2143
      → rtl_apu_write c a max_chunk now_ns adr val ≡ some (pace_write c a max_chunk now_ns adr val)
  unfolding rtl_apu_write
  rtl_apu_write-port c a max_chunk now_ns adr val low high =
      rw (le→leb 0x2140 adr low, le→leb adr 0x2143 high) refl

  clock_of :
      (c : PortClock) (a : Apu S) (max_chunk now_ns adr val : ℕ)
      → let c' = (pace_write c a max_chunk now_ns adr val).0 in
        (c'.last_target (adr % 4)
          ≡ target_of c (consume_quantum max_chunk) now_ns (catch_up a).produced (adr % 4) val)
        × (c'.last_val (adr % 4) ≡ val)
        × (c'.last_valid (adr % 4) ≡ true)
  unfolding pace_write
  clock_of c a max_chunk now_ns adr val =
      noted c (consume_quantum max_chunk) now_ns (catch_up a).produced (adr % 4) val

  queue_of :
      (c : PortClock) (a : Apu S) (max_chunk now_ns adr val : ℕ)
      → (pace_write c a max_chunk now_ns adr val).1
        ≡ schedule_port_write
            (catch_up a)
            (adr % 4)
            val
            (target_of c (consume_quantum max_chunk) now_ns (catch_up a).produced (adr % 4) val)
  unfolding pace_write
  queue_of c a max_chunk now_ns adr val = refl

  -- On the four ports of the APU, $2140 to $2143: two writes of different values to one port, one after the other, the queue with room: the
  -- second goes to the end of the pending writes with a target that is not in the past, and is 128
  -- samples after the target of the first, or 8 quanta ahead. The clocks are taken not to wrap.
  pub rtl_apu_write-dwell :
      (c : PortClock) (a : Apu S) (max_chunk now1 now2 adr v w : ℕ)
      → let (c1, a1) = pace_write c a max_chunk now1 adr v in
        let (c2, a2) = pace_write c1 a1 max_chunk now2 adr w in
        let b = catch_up a1 in
        let q = consume_quantum max_chunk in
        let first = c1.last_target (adr % 4) in
        let second = c2.last_target (adr % 4) in
        0x2140 ≤ adr
        → adr ≤ 0x2143
        → v ≢ w
        → IsQueue b
        → length (pending b) < 128
        → b.produced + 8 * q < 2 ^ 64
        → first + 128 < 2 ^ 64
        → (rtl_apu_write c a max_chunk now1 adr v ≡ some (c1, a1))
          × (rtl_apu_write c1 a1 max_chunk now2 adr w ≡ some (c2, a2))
          × (pending a2 ≡ pending b ++ (port_write (adr % 4) w second ∷ []))
          × (b.produced ≤ second)
          × ((first + 128 ≤ second) ⊎ (second ≡ b.produced + 8 * q))
  rtl_apu_write-dwell c a max_chunk now1 now2 adr v w low_port high_port differ inv room fits
        fits' =
      let r1 = pace_write c a max_chunk now1 adr v in
      let b = catch_up r1.1 in
      let q = consume_quantum max_chunk in
      let port = adr % 2 ^ 2 in
      let (t1, v1, valid1) = clock_of c a max_chunk now1 adr v in
      let (t2, v2, valid2) = clock_of r1.0 r1.1 max_chunk now2 adr w in
      let (low, high, apart) = target_of-bounds r1.0 q now2 b.produced port w fits fits' in
      let (queue, pushed, full) =
        schedule_port_write-pending b port w (target_of r1.0 q now2 b.produced port w) inv in
      (
        rtl_apu_write-port c a max_chunk now1 adr v low_port high_port,
        rtl_apu_write-port r1.0 r1.1 max_chunk now2 adr w low_port high_port,
        ap pending (queue_of r1.0 r1.1 max_chunk now2 adr w)
            ∙ (pushed room).0
            ∙ ap (λ t. pending b ++ (t ∷ [])) (ap (port_write port w) (sym t2)),
        rw t2 low,
        rw t2 (apart valid1 (λ e. differ (sym v1 ∙ sym e))),
      )
