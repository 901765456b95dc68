-- ===== src/Cpu.antt =====
-- `CpuState` of runner/src/cpu_state.h: the 65816 registers, the flag mirrors, the typed register
-- access and the conversion between the packed status register and its mirrors.
-- A flag is a `uint8` that the code reads as a condition, so it is a number here. The `ram`
-- pointer of the C struct is `g_ram`, which is a field of `Bus.Machine`.
pub mod Flags
pub mod Access
use snesrecomp.Base.{
  ℕ, ◌+◌, ◌*◌, ◌/◌, ◌%◌, ◌^◌, Bool, ◌!=◌, if◌then◌else◌, of_bool, test_bit, byte_lo, u8,
}

pub record CpuState : Type 0 where
  pub a : ℕ
  pub x : ℕ
  pub y : ℕ
  pub s : ℕ
  pub d : ℕ
  pub db : ℕ
  pub pb : ℕ
  pub host_return_valid : ℕ
  pub p : ℕ
  pub m_flag : ℕ
  pub x_flag : ℕ
  pub emulation : ℕ
  pub flag_n : ℕ
  pub flag_v : ℕ
  pub flag_z : ℕ
  pub flag_c : ℕ
  pub flag_i : ℕ
  pub flag_d : ℕ
  pub cycles : ℕ
  pub master_cycles : ℕ

-- A `uint8` as a condition.
abbrev pub truthy : ℕ → Bool
truthy n = n != 0

-- `cpu_read_b`
unfoldable pub read_b : CpuState → ℕ
read_b c = c.a / 2 ^ 8 % 2 ^ 8

unfoldable pub read_a8 : CpuState → ℕ
read_a8 c = byte_lo c.a

unfoldable pub read_a_m : CpuState → ℕ
unfolding read_a8
read_a_m c = if truthy c.m_flag then read_a8 c else c.a

-- The high byte stays.
unfoldable pub write_a8 : CpuState → ℕ → CpuState
write_a8 c v = record c { a = c.a / 2 ^ 8 * 2 ^ 8 + v }

unfoldable pub write_a16 : CpuState → ℕ → CpuState
write_a16 c v = record c { a = v }

unfoldable pub write_a_m : CpuState → ℕ → CpuState
unfolding write_a8 write_a16
write_a_m c v = if truthy c.m_flag then write_a8 c (byte_lo v) else write_a16 c v

unfoldable pub read_x_x : CpuState → ℕ
read_x_x c = if truthy c.x_flag then byte_lo c.x else c.x

-- The high byte is cleared.
unfoldable pub write_x8 : CpuState → ℕ → CpuState
write_x8 c v = record c { x = v }

unfoldable pub write_x16 : CpuState → ℕ → CpuState
write_x16 c v = record c { x = v }

unfoldable pub write_x_x : CpuState → ℕ → CpuState
unfolding write_x8 write_x16
write_x_x c v = if truthy c.x_flag then write_x8 c (byte_lo v) else write_x16 c v

unfoldable pub read_y_x : CpuState → ℕ
read_y_x c = if truthy c.x_flag then byte_lo c.y else c.y

unfoldable pub write_y8 : CpuState → ℕ → CpuState
write_y8 c v = record c { y = v }

unfoldable pub write_y16 : CpuState → ℕ → CpuState
write_y16 c v = record c { y = v }

unfoldable pub write_y_x : CpuState → ℕ → CpuState
unfolding write_y8 write_y16
write_y_x c v = if truthy c.x_flag then write_y8 c (byte_lo v) else write_y16 c v

-- `(p & (1 << k)) ? 1 : 0`
abbrev pub p_bit : ℕ → ℕ → ℕ
p_bit p k = of_bool (test_bit p k)

-- `cpu_p_to_mirrors`
unfoldable pub p_to_mirrors : CpuState → CpuState
p_to_mirrors c = record c {
  m_flag = p_bit c.p 5;
  x_flag = p_bit c.p 4;
  flag_c = p_bit c.p 0;
  flag_z = p_bit c.p 1;
  flag_i = p_bit c.p 2;
  flag_d = p_bit c.p 3;
  flag_v = p_bit c.p 6;
  flag_n = p_bit c.p 7;
}

abbrev pub flag_bit : ℕ → ℕ → ℕ
flag_bit f b = if truthy f then b else 0

-- The eight masks are different bits, so `|` of them is their sum.
unfoldable pub pack_p : CpuState → ℕ
pack_p c =
    flag_bit c.m_flag 0x20
    + flag_bit c.x_flag 0x10
    + flag_bit c.flag_c 0x01
    + flag_bit c.flag_z 0x02
    + flag_bit c.flag_i 0x04
    + flag_bit c.flag_d 0x08
    + flag_bit c.flag_v 0x40
    + flag_bit c.flag_n 0x80

-- `cpu_mirrors_to_p`
unfoldable pub mirrors_to_p : CpuState → CpuState
unfolding pack_p
mirrors_to_p c = record c { p = u8 (pack_p c) }

-- `cpu_state_init`: the reset state.
unfoldable pub state_init : CpuState
state_init = record {
  a = 0;
  x = 0;
  y = 0;
  s = 0x01ff;
  d = 0;
  db = 0;
  pb = 0;
  host_return_valid = 0;
  p = 0x34;
  m_flag = 1;
  x_flag = 1;
  emulation = 1;
  flag_n = 0;
  flag_v = 0;
  flag_z = 0;
  flag_c = 0;
  flag_i = 1;
  flag_d = 0;
  cycles = 0;
  master_cycles = 0;
}
