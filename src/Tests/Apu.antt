-- ===== src/Tests/Apu.antt =====
-- Runs of the APU side.
use snesrecomp.Base.{ℕ, ◌+◌, ◌*◌, ◌≤◌, ◌≡◌, ◌⊎◌, [], ◌∷◌, ◌++◌, true, false, refl, arith}
use snesrecomp.Apu.{Timer, Apu, port_write, schedule_port_write, drain_port_queue}
use snesrecomp.Apu.Queue.{slots, IsQueue, pending, schedule_port_write-pending}
use snesrecomp.Apu.Drain.{drain_port_queue-Drained, Drained}
use snesrecomp.Apu.Timers.{ticks, ticks_rate}
use snesrecomp.Apu.PortWrites.{pace_write, rtl_apu_write-dwell}
use snesrecomp.Apu.PortClock.{
  paced_target, delta, consume_quantum, note_write, PortClock, target_of, target_of-bounds,
}

abbrev timer0 : Timer
timer0 = record { cycles = 0; divider = 0; target = 3; counter = 15; enabled = true }

ticks_rate_example :
    ticks 16 (3 * 16) timer0
    ≡ record { cycles = 0; divider = 0; target = 3; counter = 0; enabled = true }
ticks_rate_example =
    (ticks_rate 16 timer0 (omega arith) (omega arith) refl refl refl (omega arith)).0

-- The indices are about to wrap.
abbrev pub apu0 : Apu ℕ
apu0 = record {
  core = 0;
  produced = 1000;
  ram = λ i. 0;
  rom_readable = false;
  dsp_adr = 0;
  cycles = 0;
  in_ports = λ i. 0;
  out_ports = λ i. 0;
  timer = λ i. timer0;
  cpu_cycles_left = 7;
  port_queue = λ i. port_write 1 5 900;
  q_head = 0xffffffff;
  q_tail = 0;
}

queue0 : IsQueue apu0
queue0 = record { head_lt = omega arith; tail_lt = omega arith; bounded = omega arith }

schedule_port_write-pending_example :
    pending (schedule_port_write apu0 2 6 2000) ≡ pending apu0 ++ (port_write 2 6 2000 ∷ [])
unfolding slots
schedule_port_write-pending_example =
    ((schedule_port_write-pending apu0 2 6 2000 queue0).1 (omega arith)).0

drain_port_queue-Drained_example :
    IsQueue (drain_port_queue apu0) × Drained apu0 (drain_port_queue apu0)
drain_port_queue-Drained_example = drain_port_queue-Drained apu0 queue0

abbrev clock0 : PortClock
clock0 = record {
  clock = 1000;
  clock_ns = 5;
  last_target = λ p. 1000;
  last_val = λ p. 3;
  last_valid = λ p. true;
}

target_of-bounds_example :
    (1000 + 128 ≤ target_of clock0 534 6 900 2 4) ⊎ (target_of clock0 534 6 900 2 4 ≡ 900 + 8 * 534)
target_of-bounds_example =
    (target_of-bounds clock0 534 6 900 2 4 (omega arith) (omega arith)).2 refl (omega arith)

-- Two values for port 2, 10 ns apart.
rtl_apu_write-dwell_example :
    let (c1, a1) = pace_write (λ a. a) clock0 apu0 100 6 0x2142 4 in
    let (c2, a2) = pace_write (λ a. a) c1 a1 100 16 0x2142 9 in
    (c1.last_target 2 + 128 ≤ c2.last_target 2) ⊎ (c2.last_target 2 ≡ 1000 + 8 * 534)
unfolding pace_write consume_quantum target_of note_write schedule_port_write paced_target delta
    slots
rtl_apu_write-dwell_example =
    let (e1, e2, p, l, h) =
      rtl_apu_write-dwell (λ a. a) clock0 apu0 100 6 16 0x2142 4 9 (omega arith) (omega arith)
        (omega arith)
        (record { head_lt = omega arith; tail_lt = omega arith; bounded = omega arith })
        (omega arith) (omega arith) (omega arith) in
    h
