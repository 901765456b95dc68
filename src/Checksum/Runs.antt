-- ===== src/Checksum/Runs.antt =====
-- The check value of the CRC-32 in use: the checksum of "123456789".
use snesrecomp.Base.{ℕ, ◌≡◌, refl, List, [], ◌∷◌}
use snesrecomp.Checksum.{crc_step, crc_steps, crc_byte, crc_loop, crc32}
use snesrecomp.Checksum.{table_step, table_steps, s_table, compute_loop, crc32_compute}

abbrev digits0 : List ℕ
digits0 = 0x31 ∷ 0x32 ∷ 0x33 ∷ 0x34 ∷ 0x35 ∷ 0x36 ∷ 0x37 ∷ 0x38 ∷ 0x39 ∷ []

crc32_check : crc32 digits0 ≡ 0xCBF43926
unfolding crc32 crc_loop crc_byte crc_steps crc_step
crc32_check = refl

crc32_compute_check : crc32_compute digits0 ≡ 0xCBF43926
unfolding crc32_compute compute_loop s_table table_steps table_step
crc32_compute_check = refl
