-- ===== src/Digest/Padding.antt =====
-- `sha256_compute` runs the compression over the padded message of FIPS 180-4.
use snesrecomp.Base.{
  ℕ, zero, suc, ◌+◌, ◌-◌, ◌*◌, ◌/◌, ◌%◌, ◌≤◌, ◌≡◌, refl, ap, sym, ◌∙◌, arith, List, ◌∷◌, ◌++◌,
}
use snesrecomp.Base.{
  u64, length, length-append, length-replicate, length-drop, take, drop, replicate, dec_lt, lt→ltb,
  ge→ltb, le→leb, gt→leb, take-prefix, drop-prefix, drop-drop, take_all,
}
use snesrecomp.Digest.{
  Hash, sha256_block, initial, full_blocks, length_bytes, fill_tail, digest, final_blocks,
  sha256_compute,
}

-- One bit, as few zeros as make the length with the last eight bytes a multiple of 64, the length in
-- bits.
unfoldable pub padding : ℕ → List ℕ
padding n = 0x80 ∷ (replicate ((119 - n % 64) % 64) 0 ++ length_bytes (u64 (n * 8)))

-- `count` blocks of 64 bytes, in order.
unfoldable pub hash_blocks : ℕ → Hash → List ℕ → Hash
hash_blocks zero s message = s
hash_blocks (suc count) s message =
    hash_blocks count (sha256_block s (take 64 message)) (drop 64 message)

full_blocks-hash_blocks :
    (fuel q : ℕ) (s : Hash) (bytes : List ℕ)
    → q ≡ length bytes / 64
    → length bytes ≤ 64 * fuel + 63
    → full_blocks fuel s bytes ≡ (hash_blocks q s bytes, drop (64 * q) bytes)
unfolding full_blocks hash_blocks
full_blocks-hash_blocks zero zero s bytes e h = refl
full_blocks-hash_blocks zero (suc q) s bytes e h = absurd (omega arith)
full_blocks-hash_blocks (suc fuel) zero s bytes e h =
    rw (gt→leb 64 (length bytes) (omega arith), full_blocks) refl
full_blocks-hash_blocks (suc fuel) (suc q) s bytes e h =
    rw (le→leb 64 (length bytes) (omega arith), full_blocks)
      (full_blocks-hash_blocks fuel q (sha256_block s (take 64 bytes)) (drop 64 bytes)
          (omega (arith, length-drop 64 bytes)) (omega (arith, length-drop 64 bytes))
        ∙ ap (λ t. (hash_blocks q (sha256_block s (take 64 bytes)) (drop 64 bytes), t))
            (drop-drop (64 * q) 64 (64 * suc q) bytes (omega arith)))

-- Blocks from the front of a longer message.
hash_blocks-append :
    (q t : ℕ) (s : Hash) (bytes more : List ℕ)
    → 64 * q ≤ length bytes
    → hash_blocks (q + t) s (bytes ++ more)
      ≡ hash_blocks t (hash_blocks q s bytes) (drop (64 * q) bytes ++ more)
unfolding hash_blocks
hash_blocks-append zero t s bytes more h =
    ap (λ t. hash_blocks t s (bytes ++ more)) {x = 0 + t} {y = t} (omega arith)
hash_blocks-append (suc q) t s bytes more h =
    let first = take-prefix 64 bytes more (omega arith) in
    let later = drop-prefix 64 bytes more (omega arith) in
    let s' = sha256_block s (take 64 bytes) in
    ap (λ t. hash_blocks t s (bytes ++ more)) {x = suc q + t} {y = suc (q + t)} (omega arith)
    ∙ ap (λ r. hash_blocks (q + t) (sha256_block s r) (drop 64 (bytes ++ more))) first
    ∙ ap (λ r. hash_blocks (q + t) s' r) later
    ∙ hash_blocks-append q t s' (drop 64 bytes) more (omega (arith, length-drop 64 bytes))
    ∙ ap (λ r. hash_blocks t (hash_blocks q s' (drop 64 bytes)) (r ++ more))
        (drop-drop (64 * q) 64 (64 * suc q) bytes (omega arith))

unfoldable pub message : List ℕ → List ℕ
message bytes = bytes ++ padding (length bytes)

fill_tail-padding :
    (rest : List ℕ) (total n : ℕ)
    → total - (length rest + 1) - 8 ≡ (119 - n % 64) % 64
    → fill_tail rest total (u64 (n * 8)) ≡ rest ++ padding n
unfolding fill_tail padding
fill_tail-padding rest total n e = rw e refl

length-padding : (n : ℕ) → length (padding n) ≡ 9 + (119 - n % 64) % 64
unfolding padding length_bytes
length-padding n = omega (
  arith,
  length-append (replicate ((119 - n % 64) % 64) zero) (length_bytes (u64 (n * 8))),
  length-replicate ((119 - n % 64) % 64) zero,
)

one_block :
    (s : Hash) (m : List ℕ) (k : ℕ) → k ≡ 1 → length m ≡ 64 → hash_blocks k s m ≡ sha256_block s m
unfolding hash_blocks
one_block s m k e h =
    ap (λ t. hash_blocks t s m) {y = 1} e ∙ ap (sha256_block s) (take_all 64 m (omega arith))

two_blocks :
    (s : Hash) (m : List ℕ) (k : ℕ)
    → k ≡ 2
    → length m ≡ 128
    → hash_blocks k s m ≡ sha256_block (sha256_block s (take 64 m)) (drop 64 m)
unfolding hash_blocks
two_blocks s m k e h =
    ap (λ t. hash_blocks t s m) {y = 2} e
    ∙ ap (sha256_block (sha256_block s (take 64 m)))
        (take_all 64 (drop 64 m) (omega (arith, length-drop 64 m)))

-- The last blocks, of what the full ones have left.
final_blocks-hash_blocks :
    (s : Hash) (rest : List ℕ) (n : ℕ)
    → length rest ≡ n % 64
    → final_blocks s rest (u64 (n * 8))
      ≡ hash_blocks ((length rest + length (padding n)) / 64) s (rest ++ padding n)
unfolding final_blocks
final_blocks-hash_blocks s rest n e =
    let m = rest ++ padding n in
    let size = length-append rest (padding n) in
    let pad = length-padding n in
    elim (dec_lt (length rest) 56) [
      | yes p ↦
          let t = fill_tail-padding rest 64 n (omega arith) in
          rw (lt→ltb (length rest) 56 p) (
            ap (sha256_block s) t
            ∙ sym (one_block s m _ (omega (arith, pad)) (omega (arith, size, pad))))
      | no p ↦
          let t = fill_tail-padding rest 128 n (omega arith) in
          rw (ge→ltb (length rest) 56 (omega arith)) (
            ap (λ r. sha256_block (sha256_block s (take 64 r)) (drop 64 r)) t
            ∙ sym (two_blocks s m _ (omega (arith, pad)) (omega (arith, size, pad))))
    ]

-- For every list of bytes: its padded message is a whole number of blocks of 64 bytes, and
-- `sha256_compute` gives the digest of the compression run over these blocks in order.
pub sha256_compute-message :
    (bytes : List ℕ)
    → (length (message bytes) % 64 ≡ 0)
      × (sha256_compute bytes
          ≡ digest (hash_blocks (length (message bytes) / 64) initial (message bytes)))
unfolding sha256_compute message
sha256_compute-message bytes =
    let n = length bytes in
    let q = n / 64 in
    let rest = drop (64 * q) bytes in
    let k = (length rest + length (padding n)) / 64 in
    let size = length-append bytes (padding n) in
    let pad = length-padding n in
    let left = length-drop (64 * q) bytes in
    let full = full_blocks-hash_blocks n q initial bytes refl (omega arith) in
    (
      omega (arith, size, pad),
      ap (λ r. digest (final_blocks r.0 r.1 (u64 (n * 8)))) full
          ∙ ap digest (
              final_blocks-hash_blocks (hash_blocks q initial bytes) rest n (omega (arith, left))
              ∙ sym (hash_blocks-append q k initial bytes (padding n) (omega arith))
              ∙ ap (λ t. hash_blocks t initial (bytes ++ padding n)) {x = q + k}
                  {y = length (bytes ++ padding n) / 64} (omega (arith, size, pad, left))),
    )
