-- ===== src/Patch/Encode.antt =====
-- A description of patches that does not depend on the code: commands with absolute positions, what
-- they write, and their bytes.
use snesrecomp.Base.{ℕ, zero, suc, ◌+◌, ◌-◌, ◌*◌, ◌/◌, ◌%◌, ◌^◌, ◌<◌, ◌≡◌, List, [], ◌∷◌, ◌++◌}
use snesrecomp.Base.{if◌then◌else◌, leb, length, get_or, take, drop, All, IsByte}
use snesrecomp.Checksum.{crc32}
use snesrecomp.Patch.{Progress, progress}
use snesrecomp.Patch.Numbers.{encode_int}

-- A count is one less than the number of bytes, since no command is empty.
pub data Command : Type 0 where
  source_run : ℕ → Command
  literal : ℕ → List ℕ → Command
  source_from target_from : ℕ → ℕ → Command

-- `count` bytes from `start` on, each taken from what is written by then.
unfoldable pub repeat_from : ℕ → ℕ → List ℕ → List ℕ
repeat_from start zero out = out
repeat_from start (suc count) out = repeat_from (start + 1) count (out ++ (get_or out start 0 ∷ []))

abbrev pub perform : List ℕ → Command → Progress → Progress
perform src (source_run n) p =
    progress (p.out ++ take (n + 1) (drop (length p.out) src)) p.source_offset p.target_offset
perform src (literal b bs) p = progress (p.out ++ (b ∷ bs)) p.source_offset p.target_offset
perform src (source_from start n) p =
    progress (p.out ++ take (n + 1) (drop start src)) (start + (n + 1)) p.target_offset
perform src (target_from start n) p =
    progress (repeat_from start (n + 1) p.out) p.source_offset (start + (n + 1))

unfoldable pub perform_all : List ℕ → List Command → Progress → Progress
perform_all src [] p = p
perform_all src (c ∷ cs) p = perform_all src cs (perform src c p)

-- Every read is of a byte that is there, and the output has room.
abbrev pub Fits : List ℕ → ℕ → Command → Progress → Type 0
Fits src dst_size (source_run n) p =
    (n < 2 ^ 30) × (length p.out + n < dst_size) × (length p.out + n < length src)
Fits src dst_size (literal b bs) p =
    (length bs < 2 ^ 30) × (length p.out + length bs < dst_size) × All IsByte (b ∷ bs)
Fits src dst_size (source_from start n) p =
    (n < 2 ^ 30) × (length p.out + n < dst_size) × (start + n < length src)
Fits src dst_size (target_from start n) p =
    (n < 2 ^ 30) × (length p.out + n < dst_size) × (start < length p.out)

abbrev pub AllFit : List ℕ → ℕ → List Command → Progress → Type 0
AllFit src dst_size [] p = length p.out ≡ dst_size
AllFit src dst_size (c ∷ cs) p = Fits src dst_size c p × AllFit src dst_size cs (perform src c p)

-- A position relative to the last one, its sign in the lowest bit.
unfoldable pub relative : ℕ → ℕ → ℕ
relative from start = if leb from start then 2 * (start - from) else 2 * (from - start) + 1

unfoldable pub encode_command : Command → Progress → List ℕ
encode_command (source_run n) p = encode_int (4 * n)
encode_command (literal b bs) p = encode_int (4 * length bs + 1) ++ (b ∷ bs)
encode_command (source_from start n) p =
    encode_int (4 * n + 2) ++ encode_int (relative p.source_offset start)
encode_command (target_from start n) p =
    encode_int (4 * n + 3) ++ encode_int (relative p.target_offset start)

unfoldable pub encode_all : List ℕ → List Command → Progress → List ℕ
encode_all src [] p = []
encode_all src (c ∷ cs) p = encode_command c p ++ encode_all src cs (perform src c p)

abbrev pub begin : Progress
begin = progress [] 0 0

-- What the commands make of `src`.
unfoldable pub output_of : List ℕ → List Command → List ℕ
output_of src cs = (perform_all src cs begin).out

-- Four bytes, lowest first.
unfoldable pub little_endian : ℕ → List ℕ
little_endian x = x % 2 ^ 8 ∷ x / 2 ^ 8 % 2 ^ 8 ∷ x / 2 ^ 16 % 2 ^ 8 ∷ x / 2 ^ 24 % 2 ^ 8 ∷ []

-- "BPS1", the two sizes, no metadata, and the commands.
unfoldable pub encode_body : List ℕ → List Command → List ℕ
encode_body src cs =
    0x42
    ∷ 0x50
    ∷ 0x53
    ∷ 0x31
    ∷ (encode_int (length src)
        ++ (encode_int (length (output_of src cs)) ++ (encode_int 0 ++ encode_all src cs begin)))

-- Then the checksums of the source and of the output.
unfoldable pub encode_front : List ℕ → List Command → List ℕ
encode_front src cs =
    encode_body src cs ++ (little_endian (crc32 src) ++ little_endian (crc32 (output_of src cs)))

-- Last the checksum of all that.
unfoldable pub encode_patch : List ℕ → List Command → List ℕ
encode_patch src cs = encode_front src cs ++ little_endian (crc32 (encode_front src cs))
