-- ===== src/Patch/Apply/Runs.antt =====
-- A patch whose command writes more than the size it declares.
use snesrecomp.Base.{ℕ, ◌≡◌, refl, List, [], ◌∷◌, ◌++◌, true}
use snesrecomp.Checksum.{crc32, crc_loop, crc_byte, crc_steps, crc_step}
use snesrecomp.Patch.{
  undefined, put, target_read, decode_loop, bps_decode_int, run_command, run_round, run_commands,
}
use snesrecomp.Patch.Encode.{little_endian}
use snesrecomp.Patch.Apply.{read_u32, has_magic, read_sizes, check_output, apply_sized, apply_bps}

-- Sizes 3 and 1, then two literal bytes; the checksum of 1, 2, 3 and one of no importance.
abbrev long_front : List ℕ
long_front =
    0x42
    ∷ 0x50
    ∷ 0x53
    ∷ 0x31
    ∷ 0x83
    ∷ 0x81
    ∷ 0x80
    ∷ 0x85
    ∷ 7
    ∷ 7
    ∷ (little_endian 0x55BC801D ++ little_endian 0)

-- The second byte is written past the output: its size is compared only when the loop is over.
apply_bps_overflow :
    apply_bps (λ n. true) (1 ∷ 2 ∷ 3 ∷ []) (long_front ++ little_endian 0x96e9c513) ≡ undefined
unfolding apply_bps apply_sized check_output read_sizes has_magic read_u32 run_commands run_round
    run_command bps_decode_int decode_loop target_read put little_endian crc32 crc_loop crc_byte
    crc_steps crc_step
apply_bps_overflow = refl
