-- ===== src/Patch/Rounds.antt =====
-- One round of the loop of `ApplyBps` on an encoded command, and the whole loop.
use snesrecomp.Base.{
  ℕ, zero, suc, ◌+◌, ◌*◌, ◌/◌, ◌%◌, ◌^◌, ◌<◌, ◌≤◌, ◌≡◌, refl, ◌∙◌, arith, List, [], ◌∷◌, ◌++◌,
}
use snesrecomp.Base.{some, u32, lt→ltb, length, length-append, All, IsByte, All-append}
use snesrecomp.Patch.{Progress, patched, run_command, run_round, run_commands}
use snesrecomp.Patch.Numbers.{
  encode_int, length-encode_int, encode_int-All, bps_decode_int-encode_int,
}
use snesrecomp.Patch.Encode.{Command, source_run, literal, source_from, target_from, relative}
use snesrecomp.Patch.Encode.{perform, perform_all, Fits, AllFit, encode_command, encode_all}
use snesrecomp.Patch.Copies.{
  source_read-take, target_read-append, source_copy-take, target_copy-repeat_from, move-relative,
}
use mathlib.Core.List.{append_assoc}

-- The cursors of the two copying commands are inside their arrays.
abbrev pub IsReady : List ℕ → ℕ → Progress → Type 0
IsReady src dst_size p =
    (length src < 2 ^ 31)
    × (dst_size < 2 ^ 31)
    × (p.source_offset ≤ length src)
    × (p.target_offset ≤ dst_size)

-- The number that starts a command gives back its kind and its count.
decode_command :
    (src bytes : List ℕ) (dst_size kind n : ℕ) (p : Progress)
    → kind < 4
    → n < 2 ^ 30
    → run_round src dst_size (encode_int (4 * n + kind) ++ bytes) p
      ≡ run_command src dst_size kind (n + 1) bytes p
unfolding run_round
decode_command src bytes dst_size kind n p h g =
    let e1 : u32 (4 * n + kind) % 2 ^ 2 ≡ kind = omega arith in
    let e2 : u32 (4 * n + kind) / 2 ^ 2 + 1 ≡ n + 1 = omega arith in
    rw (bps_decode_int-encode_int (4 * n + kind) bytes (omega arith)) (rw (e1, e2) refl)

relative-lt : (from start : ℕ) → from < 2 ^ 31 → start < 2 ^ 31 → relative from start < 2 ^ 64
unfolding relative
relative-lt from start h g = ground arith

run_round-encode_command :
    (src rest : List ℕ) (dst_size : ℕ) (c : Command) (p : Progress)
    → IsReady src dst_size p
    → Fits src dst_size c p
    → run_round src dst_size (encode_command c p ++ rest) p ≡ some (perform src c p, rest)
unfolding encode_command run_command
run_round-encode_command src rest dst_size (source_run n) p (b1, b2, r1, r2) (f1, f2, f3) =
    let e : 4 * n ≡ 4 * n + 0 = omega arith in
    rw (e) (
      decode_command src rest dst_size 0 n p (omega arith) f1
      ∙ rw (source_read-take src dst_size (n + 1) p.out (omega arith) (omega arith)) refl)
run_round-encode_command src rest dst_size (literal b bs) p (b1, b2, r1, r2) (f1, f2, f3) =
    let count : length bs + 1 ≡ suc (length bs) = omega arith in
    rw (append_assoc (encode_int (4 * length bs + 1)) (b ∷ bs) rest) (
      decode_command src ((b ∷ bs) ++ rest) dst_size 1 (length bs) p (omega arith) f1
      ∙ rw (count) (rw (target_read-append dst_size (b ∷ bs) rest p.out (omega arith)) refl))
run_round-encode_command src rest dst_size (source_from start n) p (b1, b2, r1, r2) (f1, f2, f3) =
    let delta = relative p.source_offset start in
    rw (append_assoc (encode_int (4 * n + 2)) (encode_int delta) rest) (
      decode_command src (encode_int delta ++ rest) dst_size 2 n p (omega arith) f1
      ∙ rw (bps_decode_int-encode_int delta rest (relative-lt _ _ (omega arith) (omega arith))) (
          rw (move-relative p.source_offset start (omega arith) (omega arith)) (
            rw (source_copy-take src dst_size (n + 1) start p.out (omega arith) b1 (omega arith))
              refl)))
run_round-encode_command src rest dst_size (target_from start n) p (b1, b2, r1, r2) (f1, f2, f3) =
    let delta = relative p.target_offset start in
    rw (append_assoc (encode_int (4 * n + 3)) (encode_int delta) rest) (
      decode_command src (encode_int delta ++ rest) dst_size 3 n p (omega arith) f1
      ∙ rw (bps_decode_int-encode_int delta rest (relative-lt _ _ (omega arith) (omega arith))) (
          rw (move-relative p.target_offset start (omega arith) (omega arith))
            (rw (target_copy-repeat_from dst_size (n + 1) start p.out f3 b2 (omega arith)) refl)))

perform-IsReady :
    (src : List ℕ) (dst_size : ℕ) (c : Command) (p : Progress)
    → IsReady src dst_size p
    → Fits src dst_size c p
    → IsReady src dst_size (perform src c p)
perform-IsReady src dst_size (source_run n) p (b1, b2, r1, r2) f = (b1, b2, r1, r2)
perform-IsReady src dst_size (literal b bs) p (b1, b2, r1, r2) f = (b1, b2, r1, r2)
perform-IsReady src dst_size (source_from start n) p (b1, b2, r1, r2) (f1, f2, f3) =
    (b1, b2, omega arith, r2)
perform-IsReady src dst_size (target_from start n) p (b1, b2, r1, r2) (f1, f2, f3) =
    (b1, b2, r1, omega arith)

encode_command-pos : (c : Command) (p : Progress) → 0 < length (encode_command c p)
unfolding encode_command
encode_command-pos (source_run n) p = length-encode_int (4 * n)
encode_command-pos (literal b bs) p = omega (
  arith,
  length-encode_int (4 * length bs + 1),
  length-append (encode_int (4 * length bs + 1)) (b ∷ bs),
)
encode_command-pos (source_from start n) p = omega (
  arith,
  length-encode_int (4 * n + 2),
  length-append (encode_int (4 * n + 2)) (encode_int (relative p.source_offset start)),
)
encode_command-pos (target_from start n) p = omega (
  arith,
  length-encode_int (4 * n + 3),
  length-append (encode_int (4 * n + 3)) (encode_int (relative p.target_offset start)),
)

-- The loop performs every command in turn and stops at the twelve bytes of checksums.
pub run_commands-encode_all :
    (src tail : List ℕ) (dst_size fuel : ℕ) (cs : List Command) (p : Progress)
    → length tail ≡ 12
    → length cs < fuel
    → IsReady src dst_size p
    → AllFit src dst_size cs p
    → run_commands fuel src dst_size (encode_all src cs p ++ tail) p
      ≡ patched (perform_all src cs p).out
unfolding run_commands encode_all perform_all
run_commands-encode_all src tail dst_size zero cs p ht hf ready fit = absurd (omega arith)
run_commands-encode_all src tail dst_size (suc fuel) [] p ht hf ready fit =
    rw (ht, run_commands) refl
run_commands-encode_all src tail dst_size (suc fuel) (c ∷ cs) p ht hf ready fit =
    let p' = perform src c p in
    let rest = encode_all src cs p' ++ tail in
    let long : 12 < length (encode_command c p ++ rest) = omega (
      arith,
      length-append (encode_command c p) rest,
      length-append (encode_all src cs p') tail,
      encode_command-pos c p,
    ) in
    rw (append_assoc (encode_command c p) (encode_all src cs p') tail) (
      rw (lt→ltb _ _ long, run_commands)
        (rw (run_round-encode_command src rest dst_size c p ready fit.0) (
          run_commands-encode_all src tail dst_size fuel cs p' ht (omega arith)
            (perform-IsReady src dst_size c p ready fit.0) fit.1)))

encode_command-All :
    (src : List ℕ) (dst_size : ℕ) (c : Command) (p : Progress)
    → Fits src dst_size c p
    → All IsByte (encode_command c p)
unfolding encode_command
encode_command-All src dst_size (source_run n) p f = encode_int-All (4 * n)
encode_command-All src dst_size (literal b bs) p f =
    All-append IsByte _ (b ∷ bs) (encode_int-All (4 * length bs + 1)) f.2
encode_command-All src dst_size (source_from start n) p f =
    All-append IsByte _ _ (encode_int-All (4 * n + 2)) (encode_int-All _)
encode_command-All src dst_size (target_from start n) p f =
    All-append IsByte _ _ (encode_int-All (4 * n + 3)) (encode_int-All _)

pub encode_all-All :
    (src : List ℕ) (dst_size : ℕ) (cs : List Command) (p : Progress)
    → AllFit src dst_size cs p
    → All IsByte (encode_all src cs p)
unfolding encode_all
encode_all-All src dst_size [] p fit = tt
encode_all-All src dst_size (c ∷ cs) p fit =
    All-append IsByte _ _ (encode_command-All src dst_size c p fit.0)
      (encode_all-All src dst_size cs (perform src c p) fit.1)

-- No command is empty, so the length of the patch is fuel enough.
pub length-encode_all :
    (src : List ℕ) (cs : List Command) (p : Progress) → length cs ≤ length (encode_all src cs p)
unfolding encode_all
length-encode_all src [] p = omega arith
length-encode_all src (c ∷ cs) p = omega (
  arith,
  encode_command-pos c p,
  length-append (encode_command c p) (encode_all src cs (perform src c p)),
  length-encode_all src cs (perform src c p),
)
