-- ===== src/Apu/Cycle.antt =====
-- `apu_reset`, `apu_cycle`, `apu_cpuRead` and `apu_cpuWrite`.
use snesrecomp.Base.{
  ℕ, ◌+◌, ◌-◌, ◌%◌, ◌^◌, Bool, true, false, ◌&&◌, not, ltb, leb, ◌==◌, if◌then◌else◌, Memory,
  update, test_bit, u8, u32,
}
use snesrecomp.Apu.{Timer, Apu, Core, clear_port_queue, drain_port_queue}

abbrev pub reset_timer : Timer
reset_timer = record { cycles = 0; divider = 0; target = 0; counter = 0; enabled = false }

-- One clock of a timer; the first two count every 128 clocks, the third every 16.
unfoldable pub tick : ℕ → Timer → Timer
tick period t =
    let t1 =
      if t.cycles == 0
      then (if t.enabled
          then (if u8 (t.divider + 1) == t.target
              then record t { cycles = period; divider = 0; counter = (t.counter + 1) % 2 ^ 4 }
              else record t { cycles = period; divider = u8 (t.divider + 1) })
          else record t { cycles = period })
      else t in
    record t1 { cycles = u8 (t1.cycles + 255) }

abbrev pub period_of : ℕ → ℕ
period_of i = if i == 2 then 16 else 128

-- A byte of the control register, for one timer: a timer that is switched on starts from 0.
unfoldable pub control_timer : Bool → Timer → Timer
control_timer on t =
    let t1 = if not t.enabled && on then record t { divider = 0; counter = 0 } else t in
    record t1 { enabled = on }

module _ {S : Type 0} (core : Core S) (boot_rom : Memory) where
  unfoldable pub reset : Apu S → Apu S
  unfolding clear_port_queue
  reset a =
      let a1 = core.dsp_reset (core.spc_reset (record a { rom_readable = true })) in
      clear_port_queue (record a1 {
        ram = λ i. 0;
        dsp_adr = 0;
        cycles = 0;
        in_ports = λ i. 0;
        out_ports = λ i. 0;
        timer = λ i. reset_timer;
        cpu_cycles_left = 7;
      })

  -- The opcode that is due, and one clock of it.
  unfoldable pub run_cpu : Apu S → Apu S
  run_cpu a =
      let r = core.run_opcode a in
      let a1 = if a.cpu_cycles_left == 0 then record r.1 { cpu_cycles_left = u8 r.0 } else a in
      record a1 { cpu_cycles_left = u8 (a1.cpu_cycles_left + 255) }

  unfoldable pub cycle : Apu S → Apu S
  unfolding run_cpu drain_port_queue tick
  cycle a =
      let a1 = run_cpu a in
      let a2 = if a1.cycles % 2 ^ 5 == 0 then core.dsp_cycle (drain_port_queue a1) else a1 in
      record a2 {
        timer = λ i. if ltb i 3 then tick (period_of i) (a2.timer i) else a2.timer i;
        cycles = u32 (a2.cycles + 1);
      }

  -- The result, and the state after it: a read of a timer's counter clears it.
  unfoldable pub cpu_read : Apu S → ℕ → ℕ × Apu S
  cpu_read a adr =
      if adr == 0xf2
      then (a.dsp_adr, a)
      else if adr == 0xf3
      then (core.dsp_read a (a.dsp_adr % 2 ^ 7), a)
      else if leb 0xf4 adr && leb adr 0xf9
      then (a.in_ports (adr - 0xf4), a)
      else if leb 0xfd adr && leb adr 0xff
      then (
        (a.timer (adr - 0xfd)).counter,
        record a {
          timer = λ i. if i == adr - 0xfd then record (a.timer i) { counter = 0 } else a.timer i;
        },
      )
      else if leb 0xf0 adr && leb adr 0xfc
      then (0, a)
      else if a.rom_readable && leb 0xffc0 adr
      then (boot_rom (adr - 0xffc0), a)
      else (a.ram adr, a)

  -- The switch of `apu_cpuWrite`.
  unfoldable pub write_register : Apu S → ℕ → ℕ → Apu S
  unfolding control_timer
  write_register a adr v =
      if adr == 0xf1
      then (let ports1 = if test_bit v 4 then update (update a.in_ports 0 0) 1 0 else a.in_ports in
          let ports2 = if test_bit v 5 then update (update ports1 2 0) 3 0 else ports1 in
          record a {
            timer = λ i. if ltb i 3 then control_timer (test_bit v i) (a.timer i) else a.timer i;
            in_ports = ports2;
            rom_readable = test_bit v 7;
          })
      else if adr == 0xf2
      then record a { dsp_adr = v }
      else if adr == 0xf3
      then (if ltb a.dsp_adr 0x80 then core.dsp_write a a.dsp_adr v else a)
      else if leb 0xf4 adr && leb adr 0xf7
      then record a { out_ports = update a.out_ports (adr - 0xf4) v }
      else if leb 0xf8 adr && leb adr 0xf9
      then record a { in_ports = update a.in_ports (adr - 0xf4) v }
      else if leb 0xfa adr && leb adr 0xfc
      then record a {
        timer = λ i. if i == adr - 0xfa then record (a.timer i) { target = v } else a.timer i;
      }
      else a

  -- Every store also goes to RAM.
  unfoldable pub cpu_write : Apu S → ℕ → ℕ → Apu S
  unfolding write_register
  cpu_write a adr v = let a1 = write_register a adr v in record a1 { ram = update a1.ram adr v }
