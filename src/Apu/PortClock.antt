-- ===== src/Apu/PortClock.antt =====
-- The target clock of `RtlApuWrite` in runner/src/common_rtl.c: when, in produced samples, a port
-- write is to be applied.
use snesrecomp.Base.{
  ℕ, ◌+◌, ◌-◌, ◌*◌, ◌/◌, ◌^◌, ◌≤◌, ◌<◌, ◌≡◌, ◌≢◌, ◌⊎◌, Bool, true, ◌&&◌, ltb, ◌==◌, ◌!=◌,
  if◌then◌else◌, update, u64, arith,
}

-- The statics of the function; a flag that the history of a port is valid is a Boolean.
pub record PortClock : Type 0 where
  pub clock : ℕ
  pub clock_ns : ℕ
  pub last_target : ℕ → ℕ
  pub last_val : ℕ → ℕ
  pub last_valid : ℕ → Bool

-- `APU_PORT_MIN_DWELL`
abbrev pub min_dwell : ℕ
min_dwell = 128

-- `audio_trace_consume_quantum`
unfoldable pub consume_quantum : ℕ → ℕ
consume_quantum max_chunk = if ltb 534 max_chunk then max_chunk else 534

-- The samples since the last write, at most four quanta.
unfoldable pub delta : PortClock → ℕ → ℕ → ℕ
delta c quantum now_ns =
    let d =
      if c.clock_ns != 0
      then u64 (u64 (now_ns + 2 ^ 64 - c.clock_ns) * 32040) / 1000000000
      else 0 in
    if ltb (u64 (4 * quantum)) d then u64 (4 * quantum) else d

-- The target between the floor and the ceiling, before the dwell.
unfoldable pub paced_target : PortClock → ℕ → ℕ → ℕ → ℕ
paced_target c quantum now_ns produced =
    let t = u64 (c.clock + delta c quantum now_ns) in
    let t1 = if ltb t produced then produced else t in
    let top = u64 (produced + 3 * quantum) in if ltb top t1 then top else t1

-- The target of a write of `val` to `port`. A value that differs from the last one of its port
-- keeps its distance.
unfoldable pub target_of : PortClock → ℕ → ℕ → ℕ → ℕ → ℕ → ℕ
target_of c quantum now_ns produced port val =
    let t = paced_target c quantum now_ns produced in
    let floor = u64 (c.last_target port + min_dwell) in
    let ceil = u64 (produced + 8 * quantum) in
    if c.last_valid port && (val != c.last_val port)
    then (if ltb t floor then (if ltb floor ceil then floor else ceil) else t)
    else t

-- The statics after the write.
unfoldable pub note_write : PortClock → ℕ → ℕ → ℕ → ℕ → ℕ → PortClock
unfolding target_of
note_write c quantum now_ns produced port val =
    let t = target_of c quantum now_ns produced port val in
    record {
      clock = t;
      clock_ns = now_ns;
      last_target = update c.last_target port t;
      last_val = update c.last_val port val;
      last_valid = λ p. if p == port then true else c.last_valid p;
    }

paced_target-bounds :
    (c : PortClock) (quantum now_ns produced : ℕ)
    → produced + 8 * quantum < 2 ^ 64
    → let t = paced_target c quantum now_ns produced in
      (produced ≤ t) × (t ≤ produced + 3 * quantum)
unfolding paced_target
paced_target-bounds c quantum now_ns produced fits = (ground arith, ground arith)

-- A write is never scheduled in the past of the produced samples, and never more than 8 quanta
-- ahead. A value that differs from the last value of its port is at least 128 samples after it,
-- unless that is 8 quanta ahead. The clocks are taken not to wrap.
pub target_of-bounds :
    (c : PortClock) (quantum now_ns produced port val : ℕ)
    → produced + 8 * quantum < 2 ^ 64
    → c.last_target port + 128 < 2 ^ 64
    → let t = target_of c quantum now_ns produced port val in
      (produced ≤ t)
      × (t ≤ produced + 8 * quantum)
      × (c.last_valid port ≡ true
          → val ≢ c.last_val port
          → (c.last_target port + 128 ≤ t) ⊎ (t ≡ produced + 8 * quantum))
unfolding target_of
target_of-bounds c quantum now_ns produced port val fits fits' =
    let p = paced_target-bounds c quantum now_ns produced fits in
    (ground (arith, p), ground (arith, p), λ seen new. ground (arith, p))
