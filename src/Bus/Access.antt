-- ===== src/Bus/Access.antt =====
-- `cpu_read8`, `cpu_read16`, `cpu_write8` and `cpu_write16`, and the pushes on the stack in bank 0.
-- The register functions are an interface, since a register access may change anything: a DMA
-- trigger writes WRAM. The trace rings (cpu_trace.c, debug_server.c) only observe, and have no part.
pub mod Bytes
pub mod Words
pub mod Stack
use snesrecomp.Base.{
  ℕ, ◌+◌, ◌*◌, ◌^◌, Bool, true, false, ◌&&◌, ◌||◌, not, Option, none, some, ltb, leb, if◌then◌else◌,
  Memory, update, word, byte_lo, byte_hi, u16, u64, dec16,
}
use snesrecomp.Cpu.{CpuState, truthy, mirrors_to_p}
use snesrecomp.Bus.Map.{ram_offset, is_hw_reg, sram_offset, rom_index, rom_invalid}

-- The globals that the bus reaches. `dev` is the state of the devices behind the registers.
pub record Machine (D : Type 0) : Type 0 where
  pub cpu : CpuState
  pub ram : Memory
  pub sram : Memory
  pub sram_present : Bool
  pub sram_size : ℕ
  pub rom : Memory
  pub cart_rom : Option ℕ
  pub fail : Bool
  pub main_cycles : ℕ
  pub apu_pace_cycles : ℕ
  pub hw_touch_count : ℕ
  pub last_hw_addr : ℕ
  pub last_hw_was_read : Bool
  pub apu_writes_logged : ℕ
  pub dev : D

-- `ReadReg`, `WriteReg`, `ReadRegWord` and `WriteRegWord`.
pub record Registers (D : Type 0) : Type 0 where
  pub read_reg : Machine D → ℕ → ℕ × Machine D
  pub write_reg : Machine D → ℕ → ℕ → Machine D
  pub read_reg_word : Machine D → ℕ → ℕ × Machine D
  pub write_reg_word : Machine D → ℕ → ℕ → Machine D

-- A word of WRAM starts at `off` if both of its bytes are in the array.
unfoldable pub ram_word_offset : ℕ → ℕ → Option ℕ
unfolding ram_offset
ram_word_offset bank addr = elim (ram_offset bank addr) [
  | none ↦ none
  | some off ↦ if ltb (off + 1) 0x20000 then some off else none
]

abbrev pub addr24 : ℕ → ℕ → ℕ
addr24 bank addr = bank * 2 ^ 16 + addr

module _ {D : Type 0} where
  -- `cpu_pace_cycles`: every touch counts, and a touch of $2140-$217F for the APU too.
  unfoldable pub pace_cycles : Machine D → ℕ → Machine D
  pace_cycles m addr = record m {
    main_cycles = u64 (m.main_cycles + 256);
    apu_pace_cycles =
        if leb 0x2140 addr && leb addr 0x217f
        then u64 (m.apu_pace_cycles + 256)
        else m.apu_pace_cycles;
  }

  -- `cpu_hw_log`
  unfoldable pub hw_log : Machine D → ℕ → Bool → Machine D
  hw_log m addr is_read = record m {
    last_hw_addr = addr;
    last_hw_was_read = is_read;
    apu_writes_logged =
        if not is_read && (leb 0x2140 addr && leb addr 0x2143)
        then m.apu_writes_logged + 1
        else m.apu_writes_logged;
    hw_touch_count = u64 (m.hw_touch_count + 1);
  }

  -- `*RomPtr(addr)`; an address outside the ROM window raises `g_fail`.
  unfoldable pub rom_ptr : Machine D → ℕ → Machine D
  rom_ptr m addr24 = record m { fail = m.fail || rom_invalid addr24 }

  abbrev pub sram_at : Machine D → ℕ → ℕ → Option ℕ
  sram_at m bank addr = sram_offset m.sram_present m.sram_size bank addr

module _ {D : Type 0} (reg : Registers D) where
  unfoldable pub read8 : Machine D → ℕ → ℕ → ℕ × Machine D
  unfolding pace_cycles hw_log rom_ptr
  read8 m bank addr = elim (ram_offset bank addr) [
    | some off ↦ (m.ram off, m)
    | none ↦
        if is_hw_reg bank addr
        then reg.read_reg (hw_log (pace_cycles m addr) addr true) addr
        else elim (sram_at m bank addr) [
          | some off ↦ (m.sram off, m)
          | none ↦ (m.rom (rom_index m.cart_rom (addr24 bank addr)), rom_ptr m (addr24 bank addr))
        ]
  ]

  unfoldable pub write8 : Machine D → ℕ → ℕ → ℕ → Machine D
  unfolding pace_cycles hw_log
  write8 m bank addr v = elim (ram_offset bank addr) [
    | some off ↦ record m { ram = update m.ram off v }
    | none ↦
        if is_hw_reg bank addr
        then reg.write_reg (hw_log (pace_cycles m addr) addr false) addr v
        else elim (sram_at m bank addr) [
          | some off ↦ record m { sram = update m.sram off v }
          | none ↦ m
        ]
  ]

  -- The high byte of a word in battery RAM, which may lie beyond it.
  unfoldable pub read_sram_hi : Machine D → ℕ → ℕ → ℕ × Machine D
  unfolding read8
  read_sram_hi m bank addr = elim (sram_at m bank addr) [
    | some hi ↦ (m.sram hi, m)
    | none ↦ read8 m bank addr
  ]

  unfoldable pub read16 : Machine D → ℕ → ℕ → ℕ × Machine D
  unfolding ram_word_offset pace_cycles hw_log rom_ptr read_sram_hi
  read16 m bank addr = elim (ram_word_offset bank addr) [
    | some off ↦ (word (m.ram off) (m.ram (off + 1)), m)
    | none ↦
        if is_hw_reg bank addr
        then reg.read_reg_word (hw_log (pace_cycles m addr) addr true) addr
        else elim (sram_at m bank addr) [
          | some lo ↦
              let (hi, m') = read_sram_hi m bank (u16 (addr + 1)) in (word (m'.sram lo) hi, m')
          | none ↦
              let i = rom_index m.cart_rom (addr24 bank addr) in
              (word (m.rom i) (m.rom (i + 1)), rom_ptr m (addr24 bank addr))
        ]
  ]

  -- The high byte of a word stored to battery RAM.
  unfoldable pub write_sram_hi : Machine D → ℕ → ℕ → ℕ → Machine D
  unfolding write8
  write_sram_hi m bank addr v = elim (sram_at m bank addr) [
    | some hi ↦ record m { sram = update m.sram hi v }
    | none ↦ write8 m bank addr v
  ]

  unfoldable pub write16 : Machine D → ℕ → ℕ → ℕ → Machine D
  unfolding ram_word_offset pace_cycles hw_log write_sram_hi
  write16 m bank addr v = elim (ram_word_offset bank addr) [
    | some off ↦ record m { ram = update (update m.ram off (byte_lo v)) (off + 1) (byte_hi v) }
    | none ↦
        if is_hw_reg bank addr
        then reg.write_reg_word (hw_log (pace_cycles m addr) addr false) addr v
        else elim (sram_at m bank addr) [
          | some lo ↦
              write_sram_hi (record m { sram = update m.sram lo (byte_lo v) }) bank (u16 (addr + 1))
                (byte_hi v)
          | none ↦ m
        ]
  ]

  abbrev set_s : Machine D → ℕ → Machine D
  set_s m s = record m { cpu = record m.cpu { s = s } }

  -- `cpu_write8(cpu, 0x00, cpu->S, v); cpu->S = (uint16)(cpu->S - 1);`
  unfoldable pub push8 : Machine D → ℕ → Machine D
  unfolding write8
  push8 m v = let m' = write8 m 0x00 m.cpu.s v in set_s m' (dec16 m'.cpu.s)

  -- `cpu_push_interrupt_frame`: PB in native mode, two placeholder bytes for the PC, then P.
  unfoldable pub push_interrupt_frame : Machine D → Machine D
  unfolding push8
  push_interrupt_frame m =
      let m1 = record m { cpu = mirrors_to_p m.cpu } in
      let m2 = if truthy m1.cpu.emulation then m1 else push8 m1 m1.cpu.pb in
      let m4 = push8 (push8 m2 0x00) 0x00 in push8 m4 m4.cpu.p

  abbrev set_host_return : Machine D → ℕ → Machine D
  set_host_return m n = record m { cpu = record m.cpu { host_return_valid = n } }

  -- `cpu_push_jsr_return_frame`
  unfoldable pub push_jsr_return_frame : Machine D → Machine D
  unfolding push8
  push_jsr_return_frame m = set_host_return (push8 (push8 m 0x00) 0x00) 2

  -- `cpu_push_jsl_return_frame`
  unfoldable pub push_jsl_return_frame : Machine D → Machine D
  unfolding push8
  push_jsl_return_frame m = set_host_return (push8 (push8 (push8 m 0xff) 0xff) 0xff) 3
