-- ===== src/Digest.antt =====
-- SHA-256, runner/src/sha256.c. The data and the blocks are lists of bytes.
pub mod Padding
mod Runs
use snesrecomp.Base.{ℕ, zero, suc, ◌+◌, ◌-◌, ◌*◌, ◌/◌, ◌^◌, bit_and, bit_or, bit_xor}
use snesrecomp.Base.{
  List, [], ◌∷◌, ◌++◌, if◌then◌else◌, ltb, leb, u8, u32, u64, length, get_or, take, drop, replicate,
}

-- `K`.
pub round_constants : List ℕ
round_constants =
    0x428a2f98 ∷ 0x71374491 ∷ 0xb5c0fbcf ∷ 0xe9b5dba5 ∷ 0x3956c25b ∷ 0x59f111f1 ∷ 0x923f82a4
    ∷ 0xab1c5ed5 ∷ 0xd807aa98 ∷ 0x12835b01 ∷ 0x243185be ∷ 0x550c7dc3 ∷ 0x72be5d74 ∷ 0x80deb1fe
    ∷ 0x9bdc06a7 ∷ 0xc19bf174 ∷ 0xe49b69c1 ∷ 0xefbe4786 ∷ 0x0fc19dc6 ∷ 0x240ca1cc ∷ 0x2de92c6f
    ∷ 0x4a7484aa ∷ 0x5cb0a9dc ∷ 0x76f988da ∷ 0x983e5152 ∷ 0xa831c66d ∷ 0xb00327c8 ∷ 0xbf597fc7
    ∷ 0xc6e00bf3 ∷ 0xd5a79147 ∷ 0x06ca6351 ∷ 0x14292967 ∷ 0x27b70a85 ∷ 0x2e1b2138 ∷ 0x4d2c6dfc
    ∷ 0x53380d13 ∷ 0x650a7354 ∷ 0x766a0abb ∷ 0x81c2c92e ∷ 0x92722c85 ∷ 0xa2bfe8a1 ∷ 0xa81a664b
    ∷ 0xc24b8b70 ∷ 0xc76c51a3 ∷ 0xd192e819 ∷ 0xd6990624 ∷ 0xf40e3585 ∷ 0x106aa070 ∷ 0x19a4c116
    ∷ 0x1e376c08 ∷ 0x2748774c ∷ 0x34b0bcb5 ∷ 0x391c0cb3 ∷ 0x4ed8aa4a ∷ 0x5b9cca4f ∷ 0x682e6ff3
    ∷ 0x748f82ee ∷ 0x78a5636f ∷ 0x84c87814 ∷ 0x8cc70208 ∷ 0x90befffa ∷ 0xa4506ceb ∷ 0xbef9a3f7
    ∷ 0xc67178f2 ∷ []

-- The eight words of the state.
pub record Hash : Type 0 where
  pub a : ℕ
  pub b : ℕ
  pub c : ℕ
  pub d : ℕ
  pub e : ℕ
  pub f : ℕ
  pub g : ℕ
  pub h : ℕ

pub rotr32 : ℕ → ℕ → ℕ
rotr32 x n = bit_or (x / 2 ^ n) (u32 (x * 2 ^ (32 - n)))

-- `W[i]` for `i` below 16.
pub block_word : List ℕ → ℕ → ℕ
block_word blk i =
    bit_or
      (bit_or (bit_or (get_or blk (i * 4) 0 * 2 ^ 24) (get_or blk (i * 4 + 1) 0 * 2 ^ 16))
        (get_or blk (i * 4 + 2) 0 * 2 ^ 8))
      (get_or blk (i * 4 + 3) 0)

pub first_words : List ℕ → ℕ → List ℕ
first_words blk zero = []
first_words blk (suc n) = first_words blk n ++ (block_word blk n ∷ [])

-- `W[i]` from 16 on.
pub next_word : List ℕ → ℕ → ℕ
next_word w i =
    let w15 = get_or w (i - 15) 0 in
    let w2 = get_or w (i - 2) 0 in
    let s0 = bit_xor (bit_xor (rotr32 w15 7) (rotr32 w15 18)) (w15 / 2 ^ 3) in
    let s1 = bit_xor (bit_xor (rotr32 w2 17) (rotr32 w2 19)) (w2 / 2 ^ 10) in
    u32 (get_or w (i - 16) 0 + s0 + get_or w (i - 7) 0 + s1)

-- The first `16 + n` words.
pub schedule : List ℕ → ℕ → List ℕ
schedule blk zero = first_words blk 16
schedule blk (suc n) = let w = schedule blk n in w ++ (next_word w (16 + n) ∷ [])

-- One round of the second loop.
pub round : List ℕ → ℕ → Hash → Hash
round w i s =
    let s1 = bit_xor (bit_xor (rotr32 s.e 6) (rotr32 s.e 11)) (rotr32 s.e 25) in
    let ch = bit_xor (bit_and s.e s.f) (bit_and (2 ^ 32 - 1 - s.e) s.g) in
    let t1 = u32 (s.h + s1 + ch + get_or round_constants i 0 + get_or w i 0) in
    let s0 = bit_xor (bit_xor (rotr32 s.a 2) (rotr32 s.a 13)) (rotr32 s.a 22) in
    let mj = bit_xor (bit_xor (bit_and s.a s.b) (bit_and s.a s.c)) (bit_and s.b s.c) in
    let t2 = u32 (s0 + mj) in
    record {
      a = u32 (t1 + t2);
      b = s.a;
      c = s.b;
      d = s.c;
      e = u32 (s.d + t1);
      f = s.e;
      g = s.f;
      h = s.g;
    }

pub rounds : List ℕ → ℕ → Hash → Hash
rounds w zero s = s
rounds w (suc n) s = round w n (rounds w n s)

pub sha256_block : Hash → List ℕ → Hash
sha256_block s blk =
    let t = rounds (schedule blk 48) 64 s in
    record {
      a = u32 (s.a + t.a);
      b = u32 (s.b + t.b);
      c = u32 (s.c + t.c);
      d = u32 (s.d + t.d);
      e = u32 (s.e + t.e);
      f = u32 (s.f + t.f);
      g = u32 (s.g + t.g);
      h = u32 (s.h + t.h);
    }

pub initial : Hash
initial = record {
  a = 0x6a09e667;
  b = 0xbb67ae85;
  c = 0x3c6ef372;
  d = 0xa54ff53a;
  e = 0x510e527f;
  f = 0x9b05688c;
  g = 0x1f83d9ab;
  h = 0x5be0cd19;
}

-- The loop over the full blocks: the state, and the data from `off` on.
pub full_blocks : ℕ → Hash → List ℕ → Hash × List ℕ
full_blocks zero s rest = (s, rest)
full_blocks (suc fuel) s rest =
    let more = full_blocks fuel (sha256_block s (take 64 rest)) (drop 64 rest) in
    if leb 64 (length rest) then more else (s, rest)

-- The eight bytes of the length in bits, highest first.
pub length_bytes : ℕ → List ℕ
length_bytes bits =
    u8 (bits / 2 ^ 56)
    ∷ u8 (bits / 2 ^ 48)
    ∷ u8 (bits / 2 ^ 40)
    ∷ u8 (bits / 2 ^ 32)
    ∷ u8 (bits / 2 ^ 24)
    ∷ u8 (bits / 2 ^ 16)
    ∷ u8 (bits / 2 ^ 8)
    ∷ u8 bits
    ∷ []

-- `tail`, its first `total` bytes.
pub fill_tail : List ℕ → ℕ → ℕ → List ℕ
fill_tail rest total bits =
    rest ++ (0x80 ∷ (replicate (total - (length rest + 1) - 8) 0 ++ length_bytes bits))

pub word_bytes : ℕ → List ℕ
word_bytes x = u8 (x / 2 ^ 24) ∷ u8 (x / 2 ^ 16) ∷ u8 (x / 2 ^ 8) ∷ u8 x ∷ []

pub digest : Hash → List ℕ
digest s =
    word_bytes s.a
    ++ (word_bytes s.b
        ++ (word_bytes s.c
            ++ (word_bytes s.d
                ++ (word_bytes s.e ++ (word_bytes s.f ++ (word_bytes s.g ++ word_bytes s.h))))))

-- The final block or blocks.
pub final_blocks : Hash → List ℕ → ℕ → Hash
final_blocks s rest bits =
    if ltb (length rest) 56
    then sha256_block s (fill_tail rest 64 bits)
    else sha256_block (sha256_block s (take 64 (fill_tail rest 128 bits)))
        (drop 64 (fill_tail rest 128 bits))

pub sha256_compute : List ℕ → List ℕ
sha256_compute bytes =
    let done = full_blocks (length bytes) initial bytes in
    digest (final_blocks done.0 done.1 (u64 (length bytes * 8)))
