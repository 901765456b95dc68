-- ===== src/Checksum.antt =====
-- runner/src/crc32.c, and the checksum of patches in runner/src/util.c.
mod Linear
pub mod Table
pub mod Bounds
mod Runs
use snesrecomp.Base.{ℕ, zero, suc, ◌*◌, ◌/◌, ◌%◌, ◌^◌, bit_xor, List, [], ◌∷◌}
use snesrecomp.Base.{if◌then◌else◌, ◌==◌, byte_lo}

abbrev pub polynomial : ℕ
polynomial = 0xEDB88320

-- util.c: `crc = (crc >> 1) ^ ((crc & 1) * CRC32_POLYNOMIAL)`.
unfoldable pub crc_step : ℕ → ℕ
crc_step crc = bit_xor (crc / 2) (crc % 2 * polynomial)

-- `count` rounds of the step.
unfoldable pub crc_steps : ℕ → ℕ → ℕ
crc_steps zero crc = crc
crc_steps (suc count) crc = crc_steps count (crc_step crc)

unfoldable pub crc_byte : ℕ → ℕ → ℕ
crc_byte crc byte = crc_steps 8 (bit_xor crc byte)

unfoldable pub crc_loop : List ℕ → ℕ → ℕ
crc_loop [] crc = crc
crc_loop (byte ∷ rest) crc = crc_loop rest (crc_byte crc byte)

unfoldable pub crc32 : List ℕ → ℕ
crc32 bytes = bit_xor (crc_loop bytes 0xFFFFFFFF) 0xFFFFFFFF

-- crc32.c: the same step written with a conditional.
pub table_step : ℕ → ℕ
table_step c = if c % 2 == 1 then bit_xor polynomial (c / 2) else c / 2

pub table_steps : ℕ → ℕ → ℕ
table_steps zero c = c
table_steps (suc count) c = table_steps count (table_step c)

-- `s_table[i]`, below 256.
pub s_table : ℕ → ℕ
s_table i = table_steps 8 i

pub compute_loop : List ℕ → ℕ → ℕ
compute_loop [] crc = crc
compute_loop (byte ∷ rest) crc =
    compute_loop rest (bit_xor (s_table (byte_lo (bit_xor crc byte))) (crc / 2 ^ 8))

pub crc32_compute : List ℕ → ℕ
crc32_compute bytes = bit_xor (compute_loop bytes 0xFFFFFFFF) 0xFFFFFFFF
