-- ===== src/Digest/Runs.antt =====
-- The digest of "abc".
use snesrecomp.Base.{ℕ, ◌≡◌, refl, List, [], ◌∷◌}
use snesrecomp.Digest.{
  round_constants, rotr32, block_word, first_words, next_word, schedule, round, rounds,
  sha256_block, initial, full_blocks, length_bytes, fill_tail, word_bytes, digest, final_blocks,
  sha256_compute,
}

abbrev abc_digest : List ℕ
abc_digest =
    0xba ∷ 0x78 ∷ 0x16 ∷ 0xbf ∷ 0x8f ∷ 0x01 ∷ 0xcf ∷ 0xea ∷ 0x41 ∷ 0x41 ∷ 0x40 ∷ 0xde ∷ 0x5d ∷ 0xae
    ∷ 0x22 ∷ 0x23 ∷ 0xb0 ∷ 0x03 ∷ 0x61 ∷ 0xa3 ∷ 0x96 ∷ 0x17 ∷ 0x7a ∷ 0x9c ∷ 0xb4 ∷ 0x10 ∷ 0xff
    ∷ 0x61 ∷ 0xf2 ∷ 0x00 ∷ 0x15 ∷ 0xad ∷ []

sha256_abc : sha256_compute (0x61 ∷ 0x62 ∷ 0x63 ∷ []) ≡ abc_digest
unfolding round_constants rotr32 block_word first_words next_word schedule round rounds sha256_block
    initial full_blocks length_bytes fill_tail word_bytes digest final_blocks sha256_compute
sha256_abc = refl
