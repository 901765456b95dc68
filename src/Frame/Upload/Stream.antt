-- ===== src/Frame/Upload/Stream.antt =====
-- The stream of a sound program as a list of blocks, and the memory that it stands for.
use snesrecomp.Base.{
  ℕ, zero, suc, ◌+◌, ◌-◌, ◌%◌, ◌^◌, ◌<◌, ◌≡◌, refl, sym, ap, ◌∙◌, arith, List, [], ◌∷◌, ◌++◌,
  Memory, update, update_self, update_ne, length, get_or, u16, byte_lo, byte_hi, ltb, if◌then◌else◌,
  dec_lt, lt→ltb, ge→ltb, ℕ_discrete,
}
use snesrecomp.Frame.Upload.{copy_block, word_at, block_done}

-- A block of the format.
pub record Block : Type 0 where
  pub target : ℕ
  pub payload : List ℕ

-- The distance of an address from the start of a block, around the 64 KB.
abbrev pub distance : ℕ → ℕ → ℕ
distance target a = (a + 2 ^ 16 - target % 2 ^ 16) % 2 ^ 16

unfoldable pub covered : Block → ℕ → ℕ → ℕ
covered b a old =
    let d = distance b.target a in if ltb d (length b.payload) then get_or b.payload d 0 else old

-- The byte at an address is the one of the last block that covers it.
unfoldable pub image_at : List Block → ℕ → ℕ → ℕ
image_at [] a old = old
image_at (b ∷ bs) a old = image_at bs a (covered b a old)

-- The bytes at `p` in memory.
unfoldable pub Holds : Memory → ℕ → List ℕ → Type 0
Holds rom p [] = Unit
Holds rom p (x ∷ xs) = (rom p ≡ x) × Holds rom (p + 1) xs

copy_block-at :
    (n target p a : ℕ) (rom ram : Memory)
    → a < 2 ^ 16
    → n < 2 ^ 16
    → copy_block n target rom p ram a
      ≡ (if ltb (distance target a) n then rom (p + distance target a) else ram a)
unfolding copy_block
copy_block-at zero target p a rom ram h room = rw (ge→ltb (distance target a) 0 (omega arith)) refl
copy_block-at (suc n) target p a rom ram h room = elim (ℕ_discrete (u16 target) a) [
  | yes e ↦
      rw
        (
          copy_block-at n (target + 1) (p + 1) a rom (update ram (u16 target) (rom p)) h
              (omega arith),
          ge→ltb (distance (target + 1) a) n (omega arith),
          lt→ltb (distance target a) (suc n) (omega arith),
        )
        (ap (update ram (u16 target) (rom p)) (sym e)
          ∙ update_self ram (u16 target) (rom p)
          ∙ ap rom {x = p} {y = p + distance target a} (omega arith))
  | no e ↦
      let far : distance target a ≡ suc (distance (target + 1) a) = omega arith in
      let d = distance (target + 1) a in
      rw
        (
          copy_block-at n (target + 1) (p + 1) a rom (update ram (u16 target) (rom p)) h
              (omega arith),
          update_ne ram (u16 target) (rom p) a (λ q. e (sym q)),
          far,
        )
        (elim (dec_lt d n) [
          | yes q ↦
              rw (lt→ltb d n q, lt→ltb (suc d) (suc n) (omega arith))
                (ap rom {x = p + 1 + d} {y = p + suc d} (omega arith))
          | no q ↦ rw (ge→ltb d n (omega arith), ge→ltb (suc d) (suc n) (omega arith)) refl
        ])
]

pub Holds-at : (rom : Memory) (p q : ℕ) (xs : List ℕ) → p ≡ q → Holds rom p xs → Holds rom q xs
Holds-at rom p q xs e held = rw (sym e) held

pub Holds-append :
    (rom : Memory) (p q : ℕ) (xs ys : List ℕ)
    → q ≡ p + length xs
    → Holds rom p (xs ++ ys)
    → Holds rom p xs × Holds rom q ys
unfolding Holds
Holds-append rom p q [] ys e held = (tt, Holds-at rom p q ys (omega arith) held)
Holds-append rom p q (x ∷ xs) ys e held =
    let s = Holds-append rom (p + 1) q xs ys (omega arith) held.1 in ((held.0, s.0), s.1)

pub Holds-get_or :
    (rom : Memory) (p i : ℕ) (xs : List ℕ)
    → Holds rom p xs
    → i < length xs
    → rom (p + i) ≡ get_or xs i 0
unfolding Holds
Holds-get_or rom p i [] held h = absurd (omega arith)
Holds-get_or rom p zero (x ∷ xs) held h = ap rom {x = p + 0} {y = p} (omega arith) ∙ held.0
Holds-get_or rom p (suc i) (x ∷ xs) held h =
    ap rom {x = p + suc i} {y = p + 1 + i} (omega arith)
    ∙ Holds-get_or rom (p + 1) i xs held.1 (omega arith)

-- A word of the format, low byte first.
abbrev pub pair_bytes : ℕ → List ℕ
pair_bytes v = byte_lo v ∷ byte_hi v ∷ []

-- A block: its length, its target and its bytes.
unfoldable pub encode_block : Block → List ℕ
encode_block b = pair_bytes (length b.payload) ++ (pair_bytes b.target ++ b.payload)

-- The blocks, a zero and the entry point.
unfoldable pub encode_stream : List Block → ℕ → List ℕ
unfolding encode_block
encode_stream [] entry = pair_bytes 0 ++ pair_bytes entry
encode_stream (b ∷ bs) entry = encode_block b ++ encode_stream bs entry

-- The fields of a block are words and it is not empty.
abbrev pub IsBlock : Block → Type 0
IsBlock b = (b.target < 2 ^ 16) × ((0 < length b.payload) × (length b.payload < 2 ^ 16))

-- Two bytes in memory, read as a word.
pub word_at-pair_bytes :
    (rom : Memory) (p q v : ℕ) (rest : List ℕ)
    → v < 2 ^ 16
    → q ≡ p + 2
    → Holds rom p (pair_bytes v ++ rest)
    → (word_at rom p ≡ v) × Holds rom q rest
unfolding Holds
word_at-pair_bytes rom p q v rest h e held =
    (omega (arith, held.0, held.1.0), Holds-at rom (p + 1 + 1) q rest (omega arith) held.1.1)

-- A block in memory is read as it was written, and stored over what it covers.
pub block_done-covered :
    (b : Block) (p a : ℕ) (rom ram : Memory)
    → IsBlock b
    → Holds rom p (encode_block b)
    → a < 2 ^ 16
    → (word_at rom p ≡ length b.payload) × (block_done rom p ram a ≡ covered b a (ram a))
unfolding encode_block covered
block_done-covered b p a rom ram fits held h =
    let s =
      word_at-pair_bytes rom p (p + 2) (length b.payload) (pair_bytes b.target ++ b.payload)
        fits.1.1 refl held in
    let s' = word_at-pair_bytes rom (p + 2) (p + 4) b.target b.payload fits.0 (omega arith) s.1 in
    let d = distance b.target a in
    (
      s.0,
      rw (s.0, s'.0, copy_block-at (length b.payload) b.target (p + 4) a rom ram h fits.1.1)
          (elim (dec_lt d (length b.payload)) [
            | yes q ↦
                rw (lt→ltb d (length b.payload) q) (Holds-get_or rom (p + 4) d b.payload s'.1 q)
            | no q ↦ rw (ge→ltb d (length b.payload) (omega arith)) refl
          ]),
    )
