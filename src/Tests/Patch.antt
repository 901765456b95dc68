-- ===== src/Tests/Patch.antt =====
-- The checksums and the patches on small inputs.
use snesrecomp.Base.{ℕ, ◌≡◌, ◌≢◌, refl, arith, List, [], ◌∷◌, All, IsByte, true}
use snesrecomp.Base.{length}
use snesrecomp.Checksum.{crc32, crc32_compute}
use snesrecomp.Checksum.Table.{crc32_compute-crc32}
use snesrecomp.Patch.{patched, stuck}
use snesrecomp.Patch.Encode.{
  Command, source_run, literal, source_from, target_from, output_of, begin, AllFit, perform_all,
  repeat_from, encode_patch,
}
use snesrecomp.Patch.Apply.{apply_bps}
use snesrecomp.Patch.Apply.RoundTrip.{apply_bps-encode_patch}
use snesrecomp.Patch.Apply.Ends.{apply_bps-ne-stuck}

-- "123456789".
abbrev digits0 : List ℕ
digits0 = 0x31 ∷ 0x32 ∷ 0x33 ∷ 0x34 ∷ 0x35 ∷ 0x36 ∷ 0x37 ∷ 0x38 ∷ 0x39 ∷ []

abbrev bytes0 : List ℕ
bytes0 = 0x31 ∷ 0xFF ∷ []

crc32_compute-crc32_example : crc32_compute bytes0 ≡ crc32 bytes0
crc32_compute-crc32_example = crc32_compute-crc32 bytes0 (omega arith, (omega arith, tt))

abbrev source0 : List ℕ
source0 = 1 ∷ 2 ∷ 3 ∷ []

-- Two bytes of the source in place, two new ones, three of the output so far from its second on, and
-- the last two of the source.
abbrev commands0 : List Command
commands0 = source_run 1 ∷ literal 9 (8 ∷ []) ∷ target_from 1 2 ∷ source_from 1 1 ∷ []

source0-IsByte : All IsByte source0
source0-IsByte = (omega arith, (omega arith, (omega arith, tt)))

target0-IsByte : All IsByte (output_of source0 commands0)
unfolding output_of perform_all repeat_from
target0-IsByte = (
  omega arith,
  (
    omega arith,
    (
      omega arith,
      (omega arith, (omega arith, (omega arith, (omega arith, (omega arith, (omega arith, tt)))))),
    ),
  ),
)

commands0-AllFit : AllFit source0 (length (output_of source0 commands0)) commands0 begin
unfolding output_of perform_all repeat_from
commands0-AllFit = (
  (omega arith, omega arith, omega arith),
  (
    (omega arith, omega arith, (omega arith, (omega arith, tt))),
    ((omega arith, omega arith, omega arith), ((omega arith, omega arith, omega arith), refl)),
  ),
)

apply_bps-encode_patch_example :
    apply_bps (λ n. true) source0 (encode_patch source0 commands0)
    ≡ patched (output_of source0 commands0)
unfolding output_of perform_all repeat_from
apply_bps-encode_patch_example =
    apply_bps-encode_patch (λ n. true) source0 commands0 (omega arith) (omega arith) source0-IsByte
      target0-IsByte commands0-AllFit refl

target_check : output_of source0 commands0 ≡ 1 ∷ 2 ∷ 9 ∷ 8 ∷ 2 ∷ 9 ∷ 8 ∷ 2 ∷ 3 ∷ []
unfolding output_of perform_all repeat_from
target_check = refl

apply_bps-ne-stuck_example : apply_bps (λ n. true) source0 digits0 ≢ stuck
apply_bps-ne-stuck_example = apply_bps-ne-stuck (λ n. true) source0 digits0
