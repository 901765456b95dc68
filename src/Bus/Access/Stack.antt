-- ===== src/Bus/Access/Stack.antt =====
-- The pushes of `cpu_push_interrupt_frame`, `cpu_push_jsr_return_frame` and
-- `cpu_push_jsl_return_frame`, with the stack in the low WRAM of bank 0.
use snesrecomp.Base.{ℕ, ◌-◌, ◌≤◌, ◌<◌, ◌≡◌, ◌≢◌, update, arith}
use snesrecomp.Cpu.{mirrors_to_p}
use snesrecomp.Bus.Map.{ram_offset}
use snesrecomp.Bus.Access.{
  Machine, Registers, write8, push8, push_interrupt_frame, push_jsr_return_frame,
  push_jsl_return_frame,
}

module _ {D : Type 0} (reg : Registers D) where
  -- A push above address 0 of low WRAM stores the byte and lowers S by one.
  push8-low :
      (m : Machine D) (v : ℕ)
      → 1 ≤ m.cpu.s
      → m.cpu.s < 0x2000
      → push8 reg m v
        ≡ record m { cpu = record m.cpu { s = m.cpu.s - 1 }; ram = update m.ram m.cpu.s v }
  unfolding push8 write8 ram_offset
  push8-low m v lo hi = ground arith

  -- In native mode, with room for four bytes in low WRAM: the frame holds, from the top, PB, two
  -- zero bytes for the PC and the packed P; S is four lower; no other byte of WRAM changes, and
  -- of the CPU only S and P.
  pub push_interrupt_frame_native :
      (m : Machine D)
      → 4 ≤ m.cpu.s
      → m.cpu.s < 0x2000
      → m.cpu.emulation ≡ 0
      → push_interrupt_frame reg m ≡ record m {
        cpu = record (mirrors_to_p m.cpu) { s = m.cpu.s - 4 };
        ram =
            update
              (update (update (update m.ram m.cpu.s m.cpu.pb) (m.cpu.s - 1) 0) (m.cpu.s - 2) 0)
              (m.cpu.s - 3)
              (mirrors_to_p m.cpu).p;
      }
  unfolding push_interrupt_frame push8 write8 ram_offset mirrors_to_p
  push_interrupt_frame_native m lo hi e = ground arith

  -- In emulation mode the frame has three bytes: PB is not pushed.
  pub push_interrupt_frame_emulation :
      (m : Machine D)
      → 4 ≤ m.cpu.s
      → m.cpu.s < 0x2000
      → m.cpu.emulation ≢ 0
      → push_interrupt_frame reg m ≡ record m {
        cpu = record (mirrors_to_p m.cpu) { s = m.cpu.s - 3 };
        ram =
            update
              (update (update m.ram m.cpu.s 0) (m.cpu.s - 1) 0)
              (m.cpu.s - 2)
              (mirrors_to_p m.cpu).p;
      }
  unfolding push_interrupt_frame push8 write8 ram_offset mirrors_to_p
  push_interrupt_frame_emulation m lo hi e = ground arith

  -- With room in low WRAM, the JSR frame is two zero bytes and the JSL frame three bytes $FF; S is
  -- lower by the size of the frame, which is what `host_return_valid` then says.
  pub push_return_frame :
      (m : Machine D)
      → 4 ≤ m.cpu.s
      → m.cpu.s < 0x2000
      → (push_jsr_return_frame reg m ≡ record m {
        cpu = record m.cpu { s = m.cpu.s - 2; host_return_valid = 2 };
        ram = update (update m.ram m.cpu.s 0) (m.cpu.s - 1) 0;
      })
        × (push_jsl_return_frame reg m ≡ record m {
          cpu = record m.cpu { s = m.cpu.s - 3; host_return_valid = 3 };
          ram = update (update (update m.ram m.cpu.s 0xff) (m.cpu.s - 1) 0xff) (m.cpu.s - 2) 0xff;
        })
  unfolding push_jsr_return_frame push_jsl_return_frame push8 write8 ram_offset
  push_return_frame m lo hi = (ground arith, ground arith)
