-- ===== src/Apu.antt =====
-- The APU side, runner/src/snes/apu.c and the port clock of `RtlApuWrite` in
-- runner/src/common_rtl.c. The SPC700 and the DSP belong to other files: the interface `Core`.
-- The histograms and the trace rings only observe, and have no part.
pub mod Queue
pub mod Drain
pub mod Cycle
pub mod Timers
pub mod PortClock
pub mod PortWrites
use snesrecomp.Base.{
  ℕ, zero, suc, ◌+◌, ◌-◌, ◌%◌, ◌^◌, Bool, ltb, leb, ◌==◌, if◌then◌else◌, Memory, update, u32,
}

-- `Timer`
pub record Timer : Type 0 where
  pub cycles : ℕ
  pub divider : ℕ
  pub target : ℕ
  pub counter : ℕ
  pub enabled : Bool

-- `ApuPortWrite`
pub record PortWrite : Type 0 where
  pub target_sample : ℕ
  pub port : ℕ
  pub val : ℕ

-- `Apu`, with the clock of produced samples, which the DSP advances. `core` is the state of the
-- SPC700 and the DSP.
pub record Apu (S : Type 0) : Type 0 where
  pub core : S
  pub produced : ℕ
  pub ram : Memory
  pub rom_readable : Bool
  pub dsp_adr : ℕ
  pub cycles : ℕ
  pub in_ports : Memory
  pub out_ports : Memory
  pub timer : ℕ → Timer
  pub cpu_cycles_left : ℕ
  pub port_queue : ℕ → PortWrite
  pub q_head : ℕ
  pub q_tail : ℕ

-- `spc_reset`, `dsp_reset`, `spc_runOpcode`, `dsp_cycle`, `dsp_read` and `dsp_write`.
pub record Core (S : Type 0) : Type 0 where
  pub spc_reset : Apu S → Apu S
  pub dsp_reset : Apu S → Apu S
  pub run_opcode : Apu S → ℕ × Apu S
  pub dsp_cycle : Apu S → Apu S
  pub dsp_read : Apu S → ℕ → ℕ
  pub dsp_write : Apu S → ℕ → ℕ → Apu S

-- `APU_PORT_QUEUE_LEN`
abbrev pub queue_len : ℕ
queue_len = 128

-- `portQTail - portQHead`
abbrev pub queued : ℕ → ℕ → ℕ
queued head tail = u32 (tail + 2 ^ 32 - head)

-- `apu_applyPortWrite`
unfoldable pub apply_port_write : Memory → PortWrite → Memory
apply_port_write ports w = update ports (w.port % 2 ^ 2) w.val

abbrev pub port_write : ℕ → ℕ → ℕ → PortWrite
port_write port val target_sample = record {
  target_sample = target_sample;
  port = port % 2 ^ 2;
  val = val;
}

module _ {S : Type 0} where
  -- `apu_clearPortQueue`
  unfoldable pub clear_port_queue : Apu S → Apu S
  clear_port_queue a = record a { q_head = 0; q_tail = 0 }

  -- The oldest write of the queue is applied.
  unfoldable pub apply_oldest : Apu S → Apu S
  unfolding apply_port_write
  apply_oldest a = record a {
    in_ports = apply_port_write a.in_ports (a.port_queue (a.q_head % queue_len));
    q_head = u32 (a.q_head + 1);
  }

  -- A write is put into the slot at the tail.
  unfoldable pub push_write : Apu S → PortWrite → Apu S
  push_write a w = record a {
    port_queue = λ i. if i == a.q_tail % queue_len then w else a.port_queue i;
    q_tail = u32 (a.q_tail + 1);
  }

  -- `apu_schedulePortWrite`
  unfoldable pub schedule_port_write : Apu S → ℕ → ℕ → ℕ → Apu S
  unfolding apply_oldest push_write
  schedule_port_write a port val target_sample =
      let a' = if leb queue_len (queued a.q_head a.q_tail) then apply_oldest a else a in
      push_write a' (port_write port val target_sample)

  -- The loop of `apu_drainPortQueue`, with fuel.
  unfoldable pub drain_loop : ℕ → Apu S → Apu S
  drain_loop zero a = a
  drain_loop (suc n) a =
      let rest = drain_loop n (apply_oldest a) in
      if a.q_head == a.q_tail
      then a
      else if ltb a.produced (a.port_queue (a.q_head % queue_len)).target_sample
      then a
      else rest

  -- `apu_drainPortQueue`: a round for each write in the queue is enough.
  unfoldable pub drain_port_queue : Apu S → Apu S
  drain_port_queue a = drain_loop (queued a.q_head a.q_tail) a
