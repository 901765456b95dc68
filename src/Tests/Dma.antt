-- ===== src/Tests/Dma.antt =====
-- Runs of the DMA controller, the cartridge and the console registers.
use snesrecomp.Base.{
  Bool-cases, inl, inr, ltb, ℕ, suc, ◌+◌, ◌<◌, ◌≡◌, true, false, none, some, refl, arith, test_bit,
  update,
}
use snesrecomp.Dma.{Channel, Dma}
use snesrecomp.Dma.Registers.{read, write, reg_of, channel_of, read-write}
use snesrecomp.Dma.Transfer.{System, general_dma, start_dma, first_active}
use snesrecomp.Dma.Cycles.{IsClear, calls}
use snesrecomp.Dma.Finish.{general_dma-Finished}
use snesrecomp.Cart.{Cart, lorom}
use snesrecomp.Snes.{Snes, Devices, read_reg}
use snesrecomp.Bus.Map.{ram_offset}
use snesrecomp.Bus.Access.{addr24}
use snesrecomp.Snes.ABus.{read_a_bus, write_a_bus, a_bus-ram_offset}
use snesrecomp.Snes.ABus.Quiet.{IsPlain, AreApart, console_port, console_port-IsQuiet}
use snesrecomp.Snes.Counters.{polls, vblank_wait}

-- A channel that sends four bytes.
abbrev channel0 : Channel
channel0 = record {
  b_adr = 0x18;
  a_adr = 0x8000;
  a_bank = 0x00;
  size = 4;
  ind_bank = 0;
  table_adr = 0;
  rep_count = 0;
  unused_byte = 0;
  dma_active = false;
  hdma_active = false;
  mode = 1;
  fixed = false;
  decrement = false;
  indirect = false;
  from_b = false;
  unused_bit = false;
  do_transfer = false;
  terminated = false;
  off_index = 0;
}

abbrev dma0 : Dma
dma0 = record { channel = λ i. channel0; dma_timer = 0; dma_busy = false }

read-write_example : read (write dma0 0x4312 0xab) 0x4312 ≡ 0xab
unfolding reg_of channel_of
read-write_example =
    (read-write dma0 0x4312 0x4312 0xab (omega arith)).0 (λ e. absurd (cc)) refl refl

abbrev cart0 : Cart
cart0 = record {
  cart_type = lorom;
  rom = λ i. 0xea;
  rom_size = 0x80000;
  ram = λ i. 0;
  ram_size = 0x2000;
}

abbrev pub snes0 : Snes ℕ
snes0 = record {
  dev = 0;
  dma = dma0;
  cart = cart0;
  ram = λ i. 0;
  ram_adr = 0;
  h_pos = 0;
  v_pos = 0;
  h_irq_enabled = false;
  v_irq_enabled = false;
  nmi_enabled = false;
  h_timer = 0x1ff;
  v_timer = 0x1ff;
  in_nmi = false;
  in_irq = false;
  in_vblank = false;
  auto_joy_read = false;
  auto_joy_timer = 0;
  ppu_latch = false;
  multiply_a = 0xff;
  multiply_result = 0xfe01;
  divide_a = 0xffff;
  divide_result = 0x101;
  input1 = 0;
  input2 = 0;
}

abbrev pub devices0 : Devices ℕ
devices0 = record {
  ppu_read = λ s a. (0, s);
  ppu_write = λ s a v. record s { dev = s.dev + 1 };
  apu_read = λ s a. (0xaa, s);
  apu_write = λ s a v. record s { dev = s.dev + 1 };
  general_dma = λ s v. record s { dev = s.dev + 100 };
}

apart0 : AreApart devices0
apart0 = record {
  ppu_read = λ s a. refl;
  ppu_write = λ s a v. refl;
  apu_read = λ s a. refl;
  apu_write = λ s a v. refl;
}

-- Four bytes from $00:8000 to the PPU, over the buses of the console.
abbrev system0 : System (Snes ℕ)
system0 = record { dma = dma0; bus = snes0; fail = false }

clear0 :
    (i : ℕ)
    → ((start_dma dma0 0x01 false).channel i).dma_active ≡ true
    → IsClear IsPlain ((start_dma dma0 0x01 false).channel i)
unfolding start_dma
clear0 i on k less = elim (Bool-cases (ltb i 8)) [
  | inl b ↦ rw (b) (omega arith, inr (ground arith))
  | inr b ↦ rw (b) (omega arith, inr (ground arith))
]

general_dma-Finished_example :
    let n = calls (start_dma dma0 0x01 false) in
    (s : System (Snes ℕ)) × (general_dma (console_port devices0) (suc n) system0 0x01 ≡ some s)
    × (s.dma.dma_busy ≡ false)
    × (first_active s.dma.channel 8 0 ≡ none)
general_dma-Finished_example =
    (general_dma-Finished IsPlain (console_port devices0) (console_port-IsQuiet devices0 apart0)
      system0 0x01 (λ i. omega arith) (λ i. omega arith) clear0 refl (omega arith)).0

vblank_wait_example : (m : ℕ) × (m < 4797) × (test_bit (read_reg (polls m snes0) 0x4212).0 7 ≡ true)
vblank_wait_example = vblank_wait snes0 (record { h_lt = omega arith; v_lt = omega arith })

-- Bank $80 shows the low WRAM.
a_bus-ram_offset_example :
    (read_a_bus devices0 snes0 (addr24 0x80 0x10) ≡ (some 0, snes0))
    × (write_a_bus devices0 snes0 (addr24 0x80 0x10) 5
        ≡ record snes0 { ram = update snes0.ram 0x10 5 })
unfolding ram_offset
a_bus-ram_offset_example =
    a_bus-ram_offset devices0 snes0 0x80 0x10 5 0x10 (omega arith) (omega arith) refl
