-- ===== src/Util/Memblk.antt =====
-- `FindAddrInMemblk`, runner/src/util.c: a count, the addresses of so many parts in order, three bytes
-- each, their offsets in the block, three bytes each, and the parts. A read that leaves the block is
-- `wild`.
use snesrecomp.Base.{
  ℕ, zero, suc, ◌+◌, ◌-◌, ◌*◌, ◌/◌, ◌^◌, ◌<◌, ◌≤◌, ◌≡◌, refl, ap, arith, true, false, ◌&&◌, List,
  length, get_or, ltb, leb, ◌==◌, if◌then◌else◌, word, u32, lt→ltb, ge→ltb, dec_lt, ltb→lt, ltb→ge,
  ==_ne, ==_iff, ℕ_discrete, Bool-cases, inl, inr,
}

-- The null pointer, a read outside the block, and a pointer into it.
pub data Place : Type 0 where
  no_place wild : Place
  place : ℕ → Place

-- `*(uint32 *)p & 0xffffff`
unfoldable pub read24 : List ℕ → ℕ → ℕ
read24 bytes p = word (get_or bytes p 0) (get_or bytes (p + 1) 0) + get_or bytes (p + 2) 0 * 2 ^ 16

-- The address of the `i`-th part.
abbrev pub key : List ℕ → ℕ → ℕ
key bytes i = read24 bytes (2 + i * 3)

-- `while (count)`, the first address being the `first`-th of the table.
unfoldable pub lower_bound : (ℕ → ℕ) → ℕ → ℕ → ℕ → ℕ → ℕ
lower_bound keys addr zero first count = first
lower_bound keys addr (suc fuel) first count =
    let step = count / 2 in
    let right = lower_bound keys addr fuel (first + step + 1) (count - (step + 1)) in
    let left = lower_bound keys addr fuel first step in
    if count == 0 then first else if ltb (keys (first + step)) addr then right else left

-- The part that was found, at index `i`; the last four bytes that are read begin at its offset.
unfoldable pub resolve : List ℕ → ℕ → ℕ → ℕ → Place
resolve bytes count addr i =
    let at = 2 + (i + count) * 3 in
    let offset = u32 (read24 bytes at + (addr + 2 ^ 32 - key bytes i)) in
    if ltb (length bytes) (at + 4)
    then wild
    else if leb (length bytes) offset
    then no_place
    else place offset

-- `FindAddrInMemblk`
unfoldable pub find_addr : List ℕ → ℕ → Place
find_addr bytes addr =
    let count = word (get_or bytes 0 0) (get_or bytes 1 0) in
    let first = lower_bound (key bytes) addr count 0 count in
    if ltb (length bytes) 2
    then no_place
    else if ltb (length bytes) (2 + count * 6)
    then no_place
    else if ltb first count && (key bytes first == addr)
    then resolve bytes count addr first
    else if first == 0
    then wild
    else resolve bytes count addr (first - 1)

-- The addresses are in order.
abbrev pub IsAscending : (ℕ → ℕ) → ℕ → Type 0
IsAscending keys n = (i j : ℕ) → i ≤ j → j < n → keys i ≤ keys j

lower_bound_lem :
    (keys : ℕ → ℕ) (addr n fuel first count : ℕ)
    → IsAscending keys n
    → count ≤ fuel
    → first + count ≤ n
    → ((i : ℕ) → i < first → keys i < addr)
    → ((i : ℕ) → first + count ≤ i → i < n → addr ≤ keys i)
    → let r = lower_bound keys addr fuel first count in
      (r ≤ n) × (((i : ℕ) → i < r → keys i < addr) × ((i : ℕ) → r ≤ i → i < n → addr ≤ keys i))
unfolding lower_bound
lower_bound_lem keys addr n zero first count asc hf hn below above =
    (omega arith, (below, λ i p q. above i (omega arith) q))
lower_bound_lem keys addr n (suc fuel) first zero asc hf hn below above =
    (omega arith, (below, λ i p q. above i (omega arith) q))
lower_bound_lem keys addr n (suc fuel) first (suc c) asc hf hn below above =
    let step = suc c / 2 in
    elim (Bool-cases (ltb (keys (first + step)) addr)) [
      | inl less ↦
          rw (==_ne (suc c) 0 (omega arith), less)
            (lower_bound_lem keys addr n fuel (first + step + 1) (suc c - (step + 1)) asc
              (omega arith) (omega arith)
              (λ i p. omega (
                arith,
                asc i (first + step) (omega arith) (omega arith),
                ltb→lt (keys (first + step)) addr less,
              ))
              (λ i p q. above i (omega arith) q))
      | inr more ↦
          rw (==_ne (suc c) 0 (omega arith), more)
            (lower_bound_lem keys addr n fuel first step asc (omega arith) (omega arith) below
              (λ i p q. omega (
                arith,
                asc (first + step) i (omega arith) q,
                ltb→ge (keys (first + step)) addr more,
              )))
    ]

-- The addresses are different and in order.
abbrev pub IsIndex : List ℕ → ℕ → Type 0
IsIndex bytes count =
    (word (get_or bytes 0 0) (get_or bytes 1 0) ≡ count)
    × ((2 + count * 6 < length bytes) × ((i j : ℕ) → i < j → j < count → key bytes i < key bytes j))

ascending : (bytes : List ℕ) (count : ℕ) → IsIndex bytes count → IsAscending (key bytes) count
ascending bytes count index i j p q = elim (ℕ_discrete i j) [
  | yes e ↦ omega (arith, ap (key bytes) e)
  | no ne ↦ omega (arith, index.1.1 i j (omega arith) q)
]

-- The part that covers an address is read where its offset stands.
resolve_inside :
    (bytes : List ℕ) (count addr i : ℕ)
    → 2 + count * 6 < length bytes
    → i < count
    → let offset = u32 (read24 bytes (2 + (i + count) * 3) + (addr + 2 ^ 32 - key bytes i)) in
      resolve bytes count addr i ≡ (if leb (length bytes) offset then no_place else place offset)
unfolding resolve
resolve_inside bytes count addr i size h =
    rw (ge→ltb (length bytes) (2 + (i + count) * 3 + 4) (omega arith)) refl

-- Where the search ends for an address that is in the table, and for one that is not.
search_exact :
    (keys : ℕ → ℕ) (addr count i r : ℕ)
    → i < count
    → ((a b : ℕ) → a < b → b < count → keys a < keys b)
    → keys i ≡ addr
    → r ≤ count
    → ((a : ℕ) → a < r → keys a < addr)
    → ((a : ℕ) → r ≤ a → a < count → addr ≤ keys a)
    → r ≡ i
search_exact keys addr count i r h asc exact top below above = elim (dec_lt i r) [
  | yes p ↦ absurd (omega (arith, below i p, exact))
  | no p ↦ elim (dec_lt r i) [
    | yes q ↦ absurd (omega (arith, above r (omega arith) (omega arith), asc r i q h, exact))
    | no q ↦ omega arith
  ]
]

search_between :
    (keys : ℕ → ℕ) (addr count i r : ℕ)
    → i < count
    → keys i < addr
    → ((a : ℕ) → i < a → a < count → addr < keys a)
    → r ≤ count
    → ((a : ℕ) → a < r → keys a < addr)
    → ((a : ℕ) → r ≤ a → a < count → addr ≤ keys a)
    → r ≡ suc i
search_between keys addr count i r h low high top below above = elim (dec_lt i r) [
  | no p ↦ absurd (omega (arith, above i (omega arith) h))
  | yes p ↦ elim (dec_lt (suc i) r) [
    | yes q ↦ absurd (omega (arith, below (suc i) q, high (suc i) (omega arith) (omega arith)))
    | no q ↦ omega arith
  ]
]

not_next :
    (keys : ℕ → ℕ) (addr count i : ℕ)
    → ((a : ℕ) → i < a → a < count → addr < keys a)
    → (ltb (suc i) count && (keys (suc i) == addr)) ≡ false
not_next keys addr count i high = elim (dec_lt (suc i) count) [
  | yes p ↦
      let past = high (suc i) (omega arith) p in
      rw (lt→ltb (suc i) count p, ==_ne (keys (suc i)) addr (omega arith)) refl
  | no p ↦ rw (ge→ltb (suc i) count (omega arith)) refl
]

-- In a block with an index whose addresses strictly ascend, and with a byte behind it, an address from
-- that of part `i` on and before that of the next part is found in part `i`: at the offset of the
-- part plus the distance from its address, or nowhere if that is outside the block.
pub find_addr-covering :
    (bytes : List ℕ) (count addr i : ℕ)
    → IsIndex bytes count
    → i < count
    → key bytes i ≤ addr
    → ((j : ℕ) → i < j → j < count → addr < key bytes j)
    → let offset = u32 (read24 bytes (2 + (i + count) * 3) + (addr + 2 ^ 32 - key bytes i)) in
      find_addr bytes addr ≡ (if leb (length bytes) offset then no_place else place offset)
unfolding find_addr
find_addr-covering bytes count addr i index h low high =
    let r = lower_bound (key bytes) addr count 0 count in
    let found =
      lower_bound_lem (key bytes) addr count count 0 count (ascending bytes count index)
        (omega arith) (omega arith) (λ j p. absurd (omega arith)) (λ j p q. absurd (omega arith)) in
    let part = resolve_inside bytes count addr i index.1.0 h in
    rw
      (
        index.0,
        ge→ltb (length bytes) 2 (omega (arith, index.1.0)),
        ge→ltb (length bytes) (2 + count * 6) (omega (arith, index.1.0)),
      )
      (elim (ℕ_discrete (key bytes i) addr) [
        | yes exact ↦
            let same : r ≡ i =
              search_exact (key bytes) addr count i r h index.1.1 exact found.0 found.1.0
                found.1.1 in
            let hit : (key bytes i == addr) ≡ true = (==_iff (key bytes i) addr).1 exact in
            rw (same, lt→ltb i count h, hit) part
        | no above ↦
            let same : r ≡ suc i =
              search_between (key bytes) addr count i r h (omega arith) high found.0 found.1.0
                found.1.1 in
            let back : suc i - 1 ≡ i = omega arith in
            rw (same, not_next (key bytes) addr count i high, ==_ne (suc i) 0 (omega arith), back)
              part
      ])
