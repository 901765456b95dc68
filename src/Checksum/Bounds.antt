-- ===== src/Checksum/Bounds.antt =====
-- The checksums are words of 32 bits.
use snesrecomp.Base.{
  ℕ, zero, suc, ◌*◌, ◌/◌, ◌%◌, ◌^◌, ◌<◌, arith, bit_xor_lt, List, [], ◌∷◌, All, IsByte,
}
use snesrecomp.Checksum.{polynomial, crc_step, crc_steps, crc_byte, crc_loop, crc32}

crc_step-lt : (crc : ℕ) → crc < 2 ^ 32 → crc_step crc < 2 ^ 32
unfolding crc_step
crc_step-lt crc h = bit_xor_lt 32 (crc / 2) (crc % 2 * polynomial) (omega arith) (omega arith)

crc_steps-lt : (count crc : ℕ) → crc < 2 ^ 32 → crc_steps count crc < 2 ^ 32
unfolding crc_steps
crc_steps-lt zero crc h = h
crc_steps-lt (suc count) crc h = crc_steps-lt count (crc_step crc) (crc_step-lt crc h)

crc_loop-lt :
    (bytes : List ℕ) (crc : ℕ) → All IsByte bytes → crc < 2 ^ 32 → crc_loop bytes crc < 2 ^ 32
unfolding crc_loop crc_byte
crc_loop-lt [] crc h g = g
crc_loop-lt (byte ∷ rest) crc h g =
    crc_loop-lt rest _ h.1 (crc_steps-lt 8 _ (bit_xor_lt 32 crc byte g (omega (arith, h.0))))

pub crc32-lt : (bytes : List ℕ) → All IsByte bytes → crc32 bytes < 2 ^ 32
unfolding crc32
crc32-lt bytes h =
    bit_xor_lt 32 (crc_loop bytes 0xFFFFFFFF) 0xFFFFFFFF (crc_loop-lt bytes _ h (omega arith))
      (omega arith)
