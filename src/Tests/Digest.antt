-- ===== src/Tests/Digest.antt =====
-- The digest of a short message runs over one block.
use snesrecomp.Base.{ℕ, ◌≡◌, List, [], ◌∷◌, length, ◌/◌}
use snesrecomp.Digest.{initial, digest, sha256_compute}
use snesrecomp.Digest.Padding.{hash_blocks, message, sha256_compute-message}

abbrev message0 : List ℕ
message0 = 0x61 ∷ 0x62 ∷ 0x63 ∷ []

sha256_compute-message_example :
    sha256_compute message0
    ≡ digest (hash_blocks (length (message message0) / 64) initial (message message0))
sha256_compute-message_example = (sha256_compute-message message0).1
