-- ===== src/Patch/Apply/Ends.antt =====
-- The loop of `ApplyBps` ends on every input: each round reads a byte of the patch at least.
use snesrecomp.Base.{
  ℕ, zero, suc, ◌+◌, ◌%◌, ◌/◌, ◌^◌, ◌<◌, ◌≤◌, ◌+◌, ◌≡◌, ap, bit_and, ◌*◌, ◌≢◌, inl, inr, arith,
  List, [], ◌∷◌, Bool, Option, some, none, Option-cases, refl, Bool-cases,
}
use snesrecomp.Base.{length, drop, length-drop, u32, u64, ltb}
use snesrecomp.Patch.{
  Outcome, stuck, rejected, undefined, patched, ◌>>=◌, Progress, progress, put, move, source_read,
  source_copy, target_copy, decode_loop, bps_decode_int, target_read, run_command, run_round,
  run_commands,
}
use snesrecomp.Patch.Apply.{read_sizes, check_output, apply_sized, apply_bps}

bind_some {ℓ κ} :
    {A : Type ℓ} {B : Type κ} (o : Option A) (f : A → Option B) (b : B)
    → (o >>= f) ≡ some b
    → (a : A) × (o ≡ some a) × (f a ≡ some b)
bind_some none f b e = cc
bind_some (some a) f b e = (a, refl, e)

decode_loop_takes :
    (bytes : List ℕ) (total shift v : ℕ) (rest : List ℕ)
    → decode_loop bytes total shift ≡ some (v, rest)
    → length rest < length bytes
unfolding decode_loop
decode_loop_takes [] total shift v rest e = cc
decode_loop_takes (x ∷ bytes) total shift v rest e =
    let total' = u64 (total + bit_and x 0x7f * shift) in
    let shift' = u64 (shift * 2 ^ 7) in
    ground (arith, decode_loop_takes bytes (u64 (total' + shift')) shift' v rest)

bps_decode_int_takes :
    (bytes : List ℕ) (v : ℕ) (rest : List ℕ)
    → bps_decode_int bytes ≡ some (v, rest)
    → length rest < length bytes
unfolding bps_decode_int
bps_decode_int_takes bytes v rest e = decode_loop_takes bytes 0 1 v rest e

target_read_takes :
    (dst_size n : ℕ) (bytes out out' rest : List ℕ)
    → target_read dst_size n bytes out ≡ some (out', rest)
    → length rest ≤ length bytes
unfolding target_read
target_read_takes dst_size zero bytes out out' rest e =
    let same : bytes ≡ rest = cc in omega (arith, ap length same)
target_read_takes dst_size (suc n) [] out out' rest e = cc
target_read_takes dst_size (suc n) (b ∷ bytes) out out' rest e =
    let (out'', e1, e2) =
      bind_some (put dst_size out b) (λ t. target_read dst_size n bytes t) (out', rest) e in
    omega (arith, target_read_takes dst_size n bytes out'' out' rest e2)

run_command_takes :
    (src : List ℕ) (dst_size kind count : ℕ) (bytes : List ℕ) (p p' : Progress) (rest : List ℕ)
    → run_command src dst_size kind count bytes p ≡ some (p', rest)
    → length rest ≤ length bytes
unfolding run_command
run_command_takes src dst_size zero count bytes p p' rest e =
    let (out, e1, e2) =
      bind_some (source_read src dst_size count p.out)
        (λ t. some (progress t p.source_offset p.target_offset, bytes)) (p', rest) e in
    let same : bytes ≡ rest = cc in omega (arith, ap length same)
run_command_takes src dst_size (suc zero) count bytes p p' rest e =
    let ((out, rest'), e1, e2) =
      bind_some (target_read dst_size count bytes p.out)
        (λ t. some (progress t.0 p.source_offset p.target_offset, t.1)) (p', rest) e in
    let same : rest' ≡ rest = cc in
    omega (arith, target_read_takes dst_size count bytes p.out out rest' e1, ap length same)
run_command_takes src dst_size (suc (suc zero)) count bytes p p' rest e =
    let ((cmd, rest'), e1, e2) =
      bind_some (bps_decode_int bytes)
        (λ t. source_copy src dst_size count (move p.source_offset (u32 t.0)) p.out >>= λ r.
          some (progress r.1 r.0 p.target_offset, t.1))
        (p', rest) e in
    let ((offset, out), e3, e4) =
      bind_some (source_copy src dst_size count (move p.source_offset (u32 cmd)) p.out)
        (λ r. some (progress r.1 r.0 p.target_offset, rest')) (p', rest) e2 in
    let same : rest' ≡ rest = cc in
    omega (arith, bps_decode_int_takes bytes cmd rest' e1, ap length same)
run_command_takes src dst_size (suc (suc (suc k))) count bytes p p' rest e =
    let ((cmd, rest'), e1, e2) =
      bind_some (bps_decode_int bytes)
        (λ t. target_copy dst_size count (move p.target_offset (u32 t.0)) p.out >>= λ r.
          some (progress r.1 p.source_offset r.0, t.1))
        (p', rest) e in
    let ((offset, out), e3, e4) =
      bind_some (target_copy dst_size count (move p.target_offset (u32 cmd)) p.out)
        (λ r. some (progress r.1 p.source_offset r.0, rest')) (p', rest) e2 in
    let same : rest' ≡ rest = cc in
    omega (arith, bps_decode_int_takes bytes cmd rest' e1, ap length same)

run_round_takes :
    (src : List ℕ) (dst_size : ℕ) (bytes : List ℕ) (p p' : Progress) (rest : List ℕ)
    → run_round src dst_size bytes p ≡ some (p', rest)
    → length rest < length bytes
unfolding run_round
run_round_takes src dst_size bytes p p' rest e =
    let ((cmd, rest'), e1, e2) =
      bind_some (bps_decode_int bytes)
        (λ t. run_command src dst_size (u32 t.0 % 2 ^ 2) (u32 t.0 / 2 ^ 2 + 1) t.1 p) (p', rest)
        e in
    omega (
      arith,
      bps_decode_int_takes bytes cmd rest' e1,
      run_command_takes src dst_size _ _ rest' p p' rest e2,
    )

run_commands-ne-stuck :
    (fuel : ℕ) (src : List ℕ) (dst_size : ℕ) (bytes : List ℕ) (p : Progress)
    → length bytes < fuel
    → run_commands fuel src dst_size bytes p ≢ stuck
unfolding run_commands
run_commands-ne-stuck zero src dst_size bytes p h = absurd (omega arith)
run_commands-ne-stuck (suc fuel) src dst_size bytes p h =
    elim (Bool-cases (ltb 12 (length bytes))) [
      | inl more ↦ elim (Option-cases (run_round src dst_size bytes p)) [
        | inl e ↦ rw (more, run_commands) (rw (e, run_commands) (λ q. cc))
        | inr ((p', rest), e) ↦
            rw (more, run_commands)
              (rw (e, run_commands)
                (run_commands-ne-stuck fuel src dst_size rest p'
                  (omega (arith, run_round_takes src dst_size bytes p p' rest e))))
      ]
      | inr done ↦ rw (done, run_commands) (λ q. cc)
    ]

check_output-ne-stuck :
    (bps : List ℕ) (dst_size : ℕ) (o : Outcome) → o ≢ stuck → check_output bps dst_size o ≢ stuck
unfolding check_output
check_output-ne-stuck bps dst_size rejected h = h
check_output-ne-stuck bps dst_size undefined h = h
check_output-ne-stuck bps dst_size stuck h = h
check_output-ne-stuck bps dst_size (patched out) h = ground (arith, h)

read_sizes_takes :
    (bytes : List ℕ) (a b : ℕ) (rest : List ℕ)
    → read_sizes bytes ≡ some (a, b, rest)
    → length rest < length bytes
unfolding read_sizes
read_sizes_takes bytes a b rest e =
    let ((n1, rest1), e1, f1) =
      bind_some (bps_decode_int bytes)
        (λ r. bps_decode_int r.1 >>= λ s. bps_decode_int s.1 >>= λ t. some (u32 r.0, u32 s.0, t.1))
        (a, b, rest) e in
    let ((n2, rest2), e2, f2) =
      bind_some (bps_decode_int rest1)
        (λ s. bps_decode_int s.1 >>= λ t. some (u32 n1, u32 s.0, t.1)) (a, b, rest) f1 in
    let ((n3, rest3), e3, f3) =
      bind_some (bps_decode_int rest2) (λ t. some (u32 n1, u32 n2, t.1)) (a, b, rest) f2 in
    let same : rest3 ≡ rest = cc in
    omega (
      arith,
      ap length same,
      bps_decode_int_takes bytes n1 rest1 e1,
      bps_decode_int_takes rest1 n2 rest2 e2,
      bps_decode_int_takes rest2 n3 rest3 e3,
    )

apply_sized-ne-stuck :
    (allocates : ℕ → Bool) (src bps : List ℕ) (src_size dst_size : ℕ) (commands : List ℕ)
    → length commands < length bps
    → apply_sized allocates src bps src_size dst_size commands ≢ stuck
unfolding apply_sized
apply_sized-ne-stuck allocates src bps src_size dst_size commands h =
    let checked =
      check_output-ne-stuck bps dst_size _
        (run_commands-ne-stuck (length bps) src dst_size commands (progress [] 0 0) h) in
    ground (arith, checked)

-- On every source and every patch, well formed or not, the loop of `ApplyBps` over the commands does not
-- run on for ever: the length of the patch bounds its turns, and the run comes to a result, a refusal,
-- or an access outside the arrays, behind which C promises nothing.
pub apply_bps-ne-stuck :
    (allocates : ℕ → Bool) (src bps : List ℕ) → apply_bps allocates src bps ≢ stuck
unfolding apply_bps
apply_bps-ne-stuck allocates src bps = elim (Option-cases (read_sizes (drop 4 bps))) [
  | inl e ↦ rw e (ground arith)
  | inr ((src_size, dst_size, commands), e) ↦
      let takes = read_sizes_takes (drop 4 bps) src_size dst_size commands e in
      let sized =
        apply_sized-ne-stuck allocates src bps src_size dst_size commands
          (omega (arith, takes, length-drop 4 bps)) in
      rw e (ground (arith, sized))
]
