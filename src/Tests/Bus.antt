-- ===== src/Tests/Bus.antt =====
-- Runs of the bus.
use snesrecomp.Base.{◌≡◌, refl, update, arith}
use snesrecomp.Bus.Map.{ram_offset}
use snesrecomp.Bus.Access.{read16, write16, push_jsr_return_frame}
use snesrecomp.Bus.Access.Bytes.{wram}
use snesrecomp.Bus.Access.Words.{read16-write16}
use snesrecomp.Bus.Access.Stack.{push_return_frame}
use snesrecomp.Tests.{machine0, registers0, cpu0}

-- A word across the end of the WRAM of bank $7E is two bytes.
read16-write16_example :
    read16 registers0 (write16 registers0 machine0 0x7e 0x10 0xabcd) 0x7e 0x10
    ≡ (0xabcd, write16 registers0 machine0 0x7e 0x10 0xabcd)
unfolding ram_offset
read16-write16_example =
    read16-write16 registers0 machine0 0x7e 0x10 0xabcd (wram 16) (wram 17) (omega arith)
      (omega arith) refl refl refl

push_return_frame_example : push_jsr_return_frame registers0 machine0 ≡ record machine0 {
  cpu = record cpu0 { s = 0x01fd; host_return_valid = 2 };
  ram = update (update machine0.ram 0x01ff 0) 0x01fe 0;
}
push_return_frame_example = (push_return_frame registers0 machine0 (omega arith) (omega arith)).0
