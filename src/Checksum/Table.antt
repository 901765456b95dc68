-- ===== src/Checksum/Table.antt =====
-- The table lookup of runner/src/crc32.c is eight steps of the loop of runner/src/util.c.
use snesrecomp.Base.{ℕ, zero, suc, ◌*◌, ◌/◌, ◌%◌, ◌^◌, ◌≡◌, refl, ap, arith, bit_xor, byte_lo}
use snesrecomp.Base.{
  List, [], All, IsByte, bit_xor_shift, ◌∷◌, bit_xor_zero, bit_xor_comm, bit_xor_split,
  if◌then◌else◌, ◌==◌, ◌<◌,
}
use snesrecomp.Checksum.{crc_step, crc_steps, crc_byte, crc_loop, crc32, polynomial}
use snesrecomp.Checksum.{table_step, table_steps, s_table, compute_loop, crc32_compute}
use snesrecomp.Checksum.Linear.{crc_steps-xor, crc_steps-shift}

choose-bit_xor :
    (bit half : ℕ)
    → bit < 2
    → (if bit == 1 then bit_xor polynomial half else half) ≡ bit_xor half (bit * polynomial)
choose-bit_xor zero half h = omega (arith, bit_xor_zero half)
choose-bit_xor (suc zero) half h = omega (arith, bit_xor_comm polynomial half)
choose-bit_xor (suc (suc bit)) half h = absurd (omega arith)

table_step-crc_step : (c : ℕ) → table_step c ≡ crc_step c
unfolding table_step crc_step
table_step-crc_step c = choose-bit_xor (c % 2) (c / 2) (omega arith)

table_steps-crc_steps : (count c : ℕ) → table_steps count c ≡ crc_steps count c
unfolding table_steps crc_steps
table_steps-crc_steps zero c = refl
table_steps-crc_steps (suc count) c = omega (
  arith,
  ap (λ t. table_steps count t) (table_step-crc_step c),
  table_steps-crc_steps count (crc_step c),
)

-- Eight steps on a word: the table's entry of its low byte, and its other bytes shifted down.
crc_steps-s_table : (x : ℕ) → crc_steps 8 x ≡ bit_xor (s_table (byte_lo x)) (x / 2 ^ 8)
unfolding s_table
crc_steps-s_table x = omega (
  arith,
  ap (λ t. crc_steps 8 t) (bit_xor_split 8 x),
  crc_steps-xor 8 (x % 2 ^ 8) (x / 2 ^ 8 * 2 ^ 8),
  ap (λ t. bit_xor (crc_steps 8 (x % 2 ^ 8)) t) (crc_steps-shift 8 (x / 2 ^ 8)),
  ap (λ t. bit_xor t (x / 2 ^ 8)) (table_steps-crc_steps 8 (byte_lo x)),
)

high_bytes : (crc byte : ℕ) → IsByte byte → bit_xor crc byte / 2 ^ 8 ≡ crc / 2 ^ 8
high_bytes crc byte h = omega (
  arith,
  bit_xor_shift 8 crc byte,
  bit_xor_zero (crc / 2 ^ 8),
  ap (λ t. bit_xor (crc / 2 ^ 8) t) {x = byte / 2 ^ 8} {y = 0} (omega arith),
)

-- A byte only changes the low byte of the sum.
crc_byte-s_table :
    (crc byte : ℕ)
    → IsByte byte
    → crc_byte crc byte ≡ bit_xor (s_table (byte_lo (bit_xor crc byte))) (crc / 2 ^ 8)
unfolding crc_byte
crc_byte-s_table crc byte h = omega (
  arith,
  crc_steps-s_table (bit_xor crc byte),
  ap (λ t. bit_xor (s_table (byte_lo (bit_xor crc byte))) t) (high_bytes crc byte h),
)

compute_loop-crc_loop :
    (bytes : List ℕ) (crc : ℕ) → All IsByte bytes → compute_loop bytes crc ≡ crc_loop bytes crc
unfolding compute_loop crc_loop
compute_loop-crc_loop [] crc h = refl
compute_loop-crc_loop (byte ∷ rest) crc h = omega (
  arith,
  ap (λ t. compute_loop rest t) (crc_byte-s_table crc byte h.0),
  compute_loop-crc_loop rest (crc_byte crc byte) h.1,
)

-- On any array of bytes the table-driven checksum is the bitwise one.
pub crc32_compute-crc32 : (bytes : List ℕ) → All IsByte bytes → crc32_compute bytes ≡ crc32 bytes
unfolding crc32_compute crc32
crc32_compute-crc32 bytes h =
    ap (λ t. bit_xor t 0xFFFFFFFF) (compute_loop-crc_loop bytes 0xFFFFFFFF h)
