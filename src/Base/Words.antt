-- ===== src/Base/Words.antt =====
-- Casts to the fixed widths, and the parts of a word. `byte_lo` is `x & 0xff` and `byte_hi` is
-- `x >> 8`, both of a 16-bit word; `test_bit x k` is `x & (1 << k)` read as a condition.
use Prim.Native.Nat.{ℕ, ◌+◌, ◌-◌, ◌*◌, ◌/◌, ◌%◌, ◌^◌}
use mathlib.Core.Bool.{Bool}
use snesrecomp.Base.Tests.{◌==◌}

abbrev pub u8 : ℕ → ℕ
u8 n = n % 2 ^ 8

abbrev pub u16 : ℕ → ℕ
u16 n = n % 2 ^ 16

abbrev pub u32 : ℕ → ℕ
u32 n = n % 2 ^ 32

abbrev pub u64 : ℕ → ℕ
u64 n = n % 2 ^ 64

abbrev pub byte_lo : ℕ → ℕ
byte_lo x = x % 2 ^ 8

abbrev pub byte_hi : ℕ → ℕ
byte_hi x = x / 2 ^ 8

-- `lo | (hi << 8)` of two bytes.
abbrev pub word : ℕ → ℕ → ℕ
word lo hi = lo + hi * 2 ^ 8

abbrev pub test_bit : ℕ → ℕ → Bool
test_bit x k = x / 2 ^ k % 2 == 1

-- `--` on a 16-bit register.
abbrev pub dec16 : ℕ → ℕ
dec16 s = (s + 2 ^ 16 - 1) % 2 ^ 16
