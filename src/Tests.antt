-- ===== src/Tests.antt =====
-- Concrete runs of the model: the data that they share.
pub mod Cpu
pub mod Bus
pub mod Dispatch
pub mod Infra
pub mod Bridge
pub mod Dma
pub mod Patch
pub mod Hdma
pub mod Digest
pub mod Msu
pub mod Apu
pub mod Rom
pub mod Upload
pub mod Rtl
pub mod Trace
pub mod Util
use snesrecomp.Base.{ℕ, ◌+◌, ◌%◌, List, [], ◌∷◌, true, false, none, some, ◌==◌, if◌then◌else◌}
use snesrecomp.Cpu.{CpuState}
use snesrecomp.Bus.Access.{Machine, Registers}
use snesrecomp.Dispatch.Table.{DispatchEntry}
use snesrecomp.Dispatch.Log.{Log, LogEntry}
use snesrecomp.Dispatch.Calls.{normal, World, Body}
use snesrecomp.Bridge.Sync.{Interp}

-- The reset state, in native mode.
abbrev pub cpu0 : CpuState
cpu0 = record {
  a = 0x1234;
  x = 0;
  y = 0;
  s = 0x01ff;
  d = 0;
  db = 0;
  pb = 0x80;
  host_return_valid = 0;
  p = 0x34;
  m_flag = 1;
  x_flag = 1;
  emulation = 0;
  flag_n = 0;
  flag_v = 0;
  flag_z = 0;
  flag_c = 0;
  flag_i = 1;
  flag_d = 0;
  cycles = 0;
  master_cycles = 0;
}

-- A cartridge with 8 KB of battery RAM.
abbrev pub machine0 : Machine ℕ
machine0 = record {
  cpu = cpu0;
  ram = λ i. i % 256;
  sram = λ i. 0;
  sram_present = true;
  sram_size = 0x2000;
  rom = λ i. 0x60;
  cart_rom = some 0x80000;
  fail = false;
  main_cycles = 0;
  apu_pace_cycles = 0;
  hw_touch_count = 0;
  last_hw_addr = 0;
  last_hw_was_read = false;
  apu_writes_logged = 0;
  dev = 0;
}

-- Registers that count the stores.
abbrev pub registers0 : Registers ℕ
registers0 = record {
  read_reg = λ m a. (a % 256, m);
  write_reg = λ m a v. record m { dev = m.dev + 1 };
  read_reg_word = λ m a. (a, m);
  write_reg_word = λ m a v. record m { dev = m.dev + 2 };
}

abbrev pub entry0 : LogEntry
entry0 = record {
  pc24 = 0;
  source_pc24 = 0;
  func_name = 0;
  mx_idx = 0;
  found = false;
  mirror = false;
  frame = 0;
}

abbrev pub log0 : Log
log0 = record { slots = λ i. entry0; idx = 0 }

abbrev pub world0 : World ℕ
world0 = record {
  machine = machine0;
  log = log0;
  frame = 7;
  func_name = 1;
  coverage = record { sites = []; overflow = 0 };
  tier_hits = 0;
  abandons = record { sites = []; total_hits = 0; overflow = 0 };
}

-- A body that counts its runs and returns.
abbrev pub body0 : Body ℕ
body0 w = (normal, record w { machine = record w.machine { dev = w.machine.dev + 1 } })

abbrev pub row0 : DispatchEntry (Body ℕ)
row0 = record { pc24 = 0x8000; variant = λ i. if i == 3 then some body0 else none }

abbrev pub row1 : DispatchEntry (Body ℕ)
row1 = record { pc24 = 0x818000; variant = λ i. some body0 }

abbrev pub table0 : List (DispatchEntry (Body ℕ))
table0 = row0 ∷ row1 ∷ []

-- An interpreter whose every opcode is a return that pops two bytes.
abbrev pub opcode0 : Interp → World ℕ → Interp × World ℕ
opcode0 t w = (record t { sp = (t.sp + 2) % 65536 }, w)

-- An interpreter that goes nowhere.
abbrev pub opcode_stuck : Interp → World ℕ → Interp × World ℕ
opcode_stuck t w = (t, w)
