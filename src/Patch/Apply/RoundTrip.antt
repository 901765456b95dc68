-- ===== src/Patch/Apply/RoundTrip.antt =====
-- A patch that is built from commands makes of the source what the commands make of it.
use snesrecomp.Base.{
  ℕ, ◌-◌, ◌^◌, ◌<◌, ◌≡◌, ◌∙◌, sym, arith, List, [], ◌++◌, Bool, true, refl, ge→ltb, !=_refl,
}
use snesrecomp.Base.{length, length-append, All, IsByte}
use snesrecomp.Checksum.{crc32}
use snesrecomp.Checksum.Bounds.{crc32-lt}
use snesrecomp.Patch.{patched, run_commands}
use snesrecomp.Patch.Encode.{
  Command, begin, AllFit, output_of, little_endian, encode_all, encode_body, encode_front,
  encode_patch,
}
use snesrecomp.Patch.Rounds.{run_commands-encode_all}
use snesrecomp.Patch.Apply.{read_u32, check_output, apply_sized, apply_bps}
use snesrecomp.Patch.Apply.Parts.{
  footer, length-footer, length-little_endian, length-commands, encode_patch-nil,
  read_u32-little_endian, encode_patch-footer, length-encode_patch, has_magic-encode_patch,
}
use snesrecomp.Patch.Apply.Parts.{
  take-encode_patch, read_sizes-encode_patch, encode_front-All, length-encode_front,
}
use mathlib.Core.List.{append_assoc}

source_checksum :
    (src : List ℕ) (cs : List Command)
    → All IsByte src
    → read_u32 (encode_patch src cs) (length (encode_patch src cs) - 12) ≡ crc32 src
source_checksum src cs h = rw (encode_patch-footer src cs) (
    read_u32-little_endian (encode_body src cs) _ _ (crc32 src)
      (omega (arith, length-append (encode_body src cs) (footer src cs), length-footer src cs))
      (crc32-lt src h))

output_checksum :
    (src : List ℕ) (cs : List Command)
    → All IsByte (output_of src cs)
    → read_u32 (encode_patch src cs) (length (encode_patch src cs) - 8) ≡ crc32 (output_of src cs)
output_checksum src cs h =
    let w1 = little_endian (crc32 src) in
    let w2 = little_endian (crc32 (output_of src cs)) in
    let w3 = little_endian (crc32 (encode_front src cs)) in
    let before = encode_body src cs ++ w1 in
    let split =
      encode_patch-footer src cs ∙ sym (append_assoc (encode_body src cs) w1 (w2 ++ w3)) in
    let at : length (encode_patch src cs) - 8 ≡ length before = omega (
      arith,
      length-encode_patch src cs,
      length-append (encode_body src cs) w1,
      length-little_endian (crc32 src),
    ) in
    rw at (
      rw split (
        read_u32-little_endian before w3 (length before) (crc32 (output_of src cs)) refl
          (crc32-lt _ h)))

patch_checksum :
    (src : List ℕ) (cs : List Command)
    → AllFit src (length (output_of src cs)) cs begin
    → read_u32 (encode_patch src cs) (length (encode_patch src cs) - 4)
      ≡ crc32 (encode_front src cs)
patch_checksum src cs fit =
    let front = encode_front src cs in
    let at : length (encode_patch src cs) - 4 ≡ length front =
      omega (arith, length-encode_front src cs) in
    rw at (
      rw (encode_patch-nil src cs) (
        read_u32-little_endian front [] (length front) (crc32 front) refl
          (crc32-lt front (encode_front-All src cs fit))))

loop_output :
    (src : List ℕ) (cs : List Command)
    → length src < 2 ^ 31
    → length (output_of src cs) < 2 ^ 31
    → AllFit src (length (output_of src cs)) cs begin
    → run_commands
        (length (encode_patch src cs))
        src
        (length (output_of src cs))
        (encode_all src cs begin ++ footer src cs)
        begin
      ≡ patched (output_of src cs)
unfolding output_of
loop_output src cs h g fit =
    run_commands-encode_all src (footer src cs) (length (output_of src cs))
      (length (encode_patch src cs)) cs begin (length-footer src cs)
      (omega (arith, length-encode_patch src cs, length-commands src cs))
      (h, g, omega arith, omega arith) fit

sized :
    (src : List ℕ) (cs : List Command) (allocates : ℕ → Bool)
    → length src < 2 ^ 31
    → length (output_of src cs) < 2 ^ 31
    → All IsByte (output_of src cs)
    → AllFit src (length (output_of src cs)) cs begin
    → allocates (length (output_of src cs)) ≡ true
    → apply_sized allocates src
        (encode_patch src cs)
        (length src)
        (length (output_of src cs))
        (encode_all src cs begin ++ footer src cs)
      ≡ patched (output_of src cs)
unfolding apply_sized check_output
sized src cs allocates h g gb fit mem =
    rw (!=_refl (length src), mem, loop_output src cs h g fit)
      (rw (!=_refl (length (output_of src cs)), output_checksum src cs gb)
        (rw (!=_refl (crc32 (output_of src cs))) refl))

-- For every list of commands whose copies stay inside the source and the output written so far
-- (`AllFit`), on arrays of bytes shorter than 2 ^ 31 and with memory for the output, `ApplyBps` of
-- the patch that encodes the commands gives what the commands make of the source.
pub apply_bps-encode_patch :
    (allocates : ℕ → Bool) (src : List ℕ) (cs : List Command)
    → length src < 2 ^ 31
    → length (output_of src cs) < 2 ^ 31
    → All IsByte src
    → All IsByte (output_of src cs)
    → AllFit src (length (output_of src cs)) cs begin
    → allocates (length (output_of src cs)) ≡ true
    → apply_bps allocates src (encode_patch src cs) ≡ patched (output_of src cs)
unfolding apply_bps
apply_bps-encode_patch allocates src cs h g hb gb fit mem =
    rw (ge→ltb (length (encode_patch src cs)) 12 (omega (arith, length-encode_patch src cs))) (
      rw (has_magic-encode_patch src cs) (
        rw (source_checksum src cs hb) (
          rw (take-encode_patch src cs) (
            rw (patch_checksum src cs fit) (
              rw (read_sizes-encode_patch src cs (omega arith) (omega arith)) (
                rw (!=_refl (crc32 src), !=_refl (crc32 (encode_front src cs)))
                  (sized src cs allocates h g gb fit mem)))))))
