-- ===== src/Tests/Rtl.antt =====
-- Arithmetic through the registers, from a program in bank $80.
use snesrecomp.Base.{ℕ, ◌+◌, ◌*◌, ◌≡◌, ◌<◌, refl, arith, false, none}
use snesrecomp.Bus.Access.{Machine, read16}
use snesrecomp.Frame.Registers.{Rtl, Ports}
use snesrecomp.Frame.Registers.OnBus.{bus, divide_on, division_on_bus}
use snesrecomp.Tests.{cpu0}
use snesrecomp.Tests.Dma.{snes0, devices0}
use snesrecomp.Tests.Msu.{msu0, disk0}

abbrev rtl0 : Rtl ℕ
rtl0 = record { snes = snes0; msu = msu0; last_hdmaen = 0; memsel = 0 }

abbrev ports0 : Ports ℕ
ports0 = record {
  catch_up = λ s. s;
  out_port = λ s p. p;
  vram = λ d i. 0;
  vram_pointer = λ d. d;
  vram_increment = λ d. 1;
  set_vram = λ d vram p. p;
}

abbrev program0 : Machine (Rtl ℕ)
program0 = record {
  cpu = cpu0;
  ram = λ i. 0;
  sram = λ i. 0;
  sram_present = false;
  sram_size = 0;
  rom = λ i. 0;
  cart_rom = none;
  fail = false;
  main_cycles = 0;
  apu_pace_cycles = 0;
  hw_touch_count = 0;
  last_hw_addr = 0;
  last_hw_was_read = false;
  apu_writes_logged = 0;
  dev = rtl0;
}

division_on_bus_example :
    ((read16
            (bus devices0 ports0 disk0)
            (divide_on devices0 ports0 disk0 program0 0x80 1000 7)
            0x80
            0x4214).0
          * 7
        + (read16
            (bus devices0 ports0 disk0)
            (divide_on devices0 ports0 disk0 program0 0x80 1000 7)
            0x80
            0x4216).0
      ≡ 1000)
    × ((read16
          (bus devices0 ports0 disk0)
          (divide_on devices0 ports0 disk0 program0 0x80 1000 7)
          0x80
          0x4216).0
        < 7)
division_on_bus_example =
    division_on_bus devices0 ports0 disk0 program0 0x80 1000 7 refl (omega arith) (omega arith)
      (omega arith)
