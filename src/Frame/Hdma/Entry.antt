-- ===== src/Frame/Hdma/Entry.antt =====
-- The lines of one entry of an HDMA table whose data stand in the table.
use snesrecomp.Base.{
  ℕ, zero, suc, ◌+◌, ◌*◌, ◌/◌, ◌%◌, ◌^◌, ◌<◌, ◌≡◌, refl, ap, ◌∙◌, arith, true, false, Option, some,
  List, [], ◌++◌,
}
use snesrecomp.Base.{dec_lt, lt→ltb, ge→ltb, ==_ne, if◌then◌else◌, ltb, ◌==◌, u8, test_bit, Memory}
use snesrecomp.Frame.Hdma.{
  Pointer, in_ram, in_rom, forward, peek, SimpleHdma, offsets, writes, count_of, transfer,
  next_entry, do_line,
}
use native.Mathlib.Nat.{suc-mul}

-- `n` lines: the state and all the stores.
pub do_lines : Memory → Memory → Option ℕ → ℕ → SimpleHdma → SimpleHdma × List (ℕ × ℕ)
do_lines ram rom cart zero c = (c, [])
do_lines ram rom cart (suc n) c =
    let line = do_line ram rom cart c in
    let rest = do_lines ram rom cart n line.0 in (rest.0, line.1 ++ rest.1)

-- The bytes of one transfer.
abbrev pub size_of : SimpleHdma → ℕ
size_of c = count_of (offsets (c.mode % 2 ^ 3))

-- `k` transfers from consecutive places of the table.
unfoldable pub transfers : Memory → Memory → SimpleHdma → ℕ → Pointer → List (ℕ × ℕ)
transfers ram rom c zero p = []
transfers ram rom c (suc k) p =
    writes ram rom c.ppu_addr p (offsets (c.mode % 2 ^ 3))
    ++ transfers ram rom c k (forward p (size_of c))

abbrev pub at : SimpleHdma → Pointer → ℕ → SimpleHdma
at c p count = record c { table = some p; rep_count = count }

forward-forward : (p : Pointer) (a b n : ℕ) → n ≡ a + b → forward (forward p a) b ≡ forward p n
forward-forward (in_ram i) a b n h = ap (λ t. in_ram t) (omega arith)
forward-forward (in_rom i) a b n h = ap (λ t. in_rom t) (omega arith)

forward-zero : (p : Pointer) (n : ℕ) → n ≡ 0 → forward p n ≡ p
forward-zero (in_ram i) n h = ap (λ t. in_ram t) (omega arith)
forward-zero (in_rom i) n h = ap (λ t. in_rom t) (omega arith)

-- A line of an entry that is not repeated, after its first.
quiet_line :
    (ram rom : Memory) (cart : Option ℕ) (c : SimpleHdma) (p : Pointer) (k : ℕ)
    → suc k < 128
    → do_line ram rom cart (at c p (suc k)) ≡ (at c p k, [])
unfolding do_line transfer
quiet_line ram rom cart c p k h =
    let e1 : (suc k % 2 ^ 7 == 0) ≡ false = ==_ne (suc k % 2 ^ 7) 0 (λ e. omega arith) in
    let e2 : test_bit (suc k) 7 ≡ false = ==_ne (suc k / 2 ^ 7 % 2) 1 (λ e. omega arith) in
    let e3 : u8 (suc k + 255) ≡ k = omega arith in rw e1 (rw e2 (rw e3 refl))

-- A line of an entry in repeat mode, after its first.
repeat_line :
    (ram rom : Memory) (cart : Option ℕ) (c : SimpleHdma) (p : Pointer) (k : ℕ)
    → k < 127
    → test_bit c.mode 6 ≡ false
    → do_line ram rom cart (at c p (129 + k)) ≡ (
      at c (forward p (size_of c)) (128 + k),
      writes ram rom c.ppu_addr p (offsets (c.mode % 2 ^ 3)),
    )
unfolding do_line transfer
repeat_line ram rom cart c p k h direct =
    let e1 : ((129 + k) % 2 ^ 7 == 0) ≡ false = ==_ne ((129 + k) % 2 ^ 7) 0 (λ e. omega arith) in
    let e2 : test_bit (129 + k) 7 ≡ true = ground arith in
    let e3 : u8 (129 + k + 255) ≡ 128 + k = omega arith in rw e1 (rw e2 (rw direct (rw e3 refl)))

quiet_lines :
    (ram rom : Memory) (cart : Option ℕ) (c : SimpleHdma) (p : Pointer) (k : ℕ)
    → k < 128
    → do_lines ram rom cart k (at c p k) ≡ (at c p 0, [])
unfolding do_lines
quiet_lines ram rom cart c p zero h = refl
quiet_lines ram rom cart c p (suc k) h =
    rw (quiet_line ram rom cart c p k h) (rw (quiet_lines ram rom cart c p k (omega arith)) refl)

repeat_lines :
    (ram rom : Memory) (cart : Option ℕ) (c : SimpleHdma) (p : Pointer) (k n : ℕ)
    → k < 128
    → test_bit c.mode 6 ≡ false
    → n ≡ 128 + k
    → do_lines ram rom cart k (at c p n)
      ≡ (at c (forward p (k * size_of c)) 128, transfers ram rom c k p)
unfolding do_lines transfers
repeat_lines ram rom cart c p zero n h direct e =
    rw e (rw (forward-zero p (0 * size_of c) (omega arith)) refl)
repeat_lines ram rom cart c p (suc k) n h direct e =
    let e' : n ≡ 129 + k = omega arith in
    let p' = forward p (size_of c) in
    rw e' (
      rw (repeat_line ram rom cart c p k (omega arith) direct) (
        rw (repeat_lines ram rom cart c p' k (128 + k) (omega arith) direct refl) (
          rw
            (forward-forward p (size_of c) (k * size_of c) (suc k * size_of c)
              (omega (arith, suc-mul k (size_of c))))
            refl)))

-- The first line of an entry transfers.
first_line :
    (ram rom : Memory) (cart : Option ℕ) (c : SimpleHdma) (p : Pointer) (count : ℕ)
    → c.table ≡ some p
    → c.rep_count % 2 ^ 7 ≡ 0
    → peek ram rom p ≡ suc count
    → count < 255
    → test_bit c.mode 6 ≡ false
    → do_line ram rom cart c ≡ (
      at c (forward p (1 + size_of c)) count,
      writes ram rom c.ppu_addr (forward p 1) (offsets (c.mode % 2 ^ 3)),
    )
unfolding do_line next_entry transfer
first_line ram rom cart c p count t r v h direct =
    let e1 : (suc count == 0) ≡ false = ==_ne (suc count) 0 (λ e. omega arith) in
    let e2 : u8 (suc count + 255) ≡ count = omega arith in
    rw t (
      rw r (
        rw v (
          rw e1
            (rw direct (rw e2 (rw (forward-forward p 1 (size_of c) (1 + size_of c) refl) refl))))))

single_entry :
    (ram rom : Memory) (cart : Option ℕ) (c : SimpleHdma) (p : Pointer) (k : ℕ)
    → c.table ≡ some p
    → c.rep_count % 2 ^ 7 ≡ 0
    → k < 127
    → test_bit c.mode 6 ≡ false
    → peek ram rom p ≡ suc k
    → do_lines ram rom cart (suc k) c
      ≡ (at c (forward p (1 + size_of c)) 0, transfers ram rom c 1 (forward p 1))
unfolding do_lines transfers
single_entry ram rom cart c p k t r h direct v =
    rw (first_line ram rom cart c p k t r v (omega arith) direct)
      (rw (quiet_lines ram rom cart c (forward p (1 + size_of c)) k (omega arith)) refl)

repeated_entry :
    (ram rom : Memory) (cart : Option ℕ) (c : SimpleHdma) (p : Pointer) (k : ℕ)
    → c.table ≡ some p
    → c.rep_count % 2 ^ 7 ≡ 0
    → k < 127
    → test_bit c.mode 6 ≡ false
    → peek ram rom p ≡ suc (128 + k)
    → do_lines ram rom cart (suc k) c
      ≡ (at c (forward p (1 + suc k * size_of c)) 128, transfers ram rom c (suc k) (forward p 1))
unfolding do_lines transfers
repeated_entry ram rom cart c p k t r h direct v =
    let n = size_of c in
    let n' = suc k * n in
    rw (first_line ram rom cart c p (128 + k) t r v (omega arith) direct) (
      rw (repeat_lines ram rom cart c (forward p (1 + n)) k (128 + k) (omega arith) direct refl) (
        rw (forward-forward p (1 + n) (k * n) (1 + n') (omega (arith, suc-mul k n)))
          (rw (forward-forward p 1 n (1 + n) refl) refl)))

-- When the last entry has run out and the data stand in the table, for an entry whose count byte at
-- `p` is not 0x00, which ends the table, nor 0x80: with the top bit clear it lasts as many lines as it
-- counts, the first of which transfers, and leaves the table behind its one block of data; with the
-- top bit set it lasts as many lines as its low seven bits count, and each of them transfers, from
-- consecutive blocks. Either way the next line takes a new entry.
pub do_lines-entry :
    (ram rom : Memory) (cart : Option ℕ) (c : SimpleHdma) (p : Pointer) (count k : ℕ)
    → c.table ≡ some p
    → c.rep_count % 2 ^ 7 ≡ 0
    → test_bit c.mode 6 ≡ false
    → peek ram rom p ≡ count
    → count < 2 ^ 8
    → count % 2 ^ 7 ≡ suc k
    → do_lines ram rom cart (suc k) c ≡ (
        if ltb count 128
        then (at c (forward p (1 + size_of c)) 0, transfers ram rom c 1 (forward p 1))
        else (
          at c (forward p (1 + suc k * size_of c)) 128,
          transfers ram rom c (suc k) (forward p 1),
        ))
do_lines-entry ram rom cart c p count k t r direct v byte low = elim (dec_lt count 128) [
  | yes h ↦
      rw (lt→ltb count 128 h)
        (single_entry ram rom cart c p k t r (omega arith) direct (v ∙ omega arith))
  | no h ↦
      rw (ge→ltb count 128 (omega arith))
        (repeated_entry ram rom cart c p k t r (omega arith) direct (v ∙ omega arith))
]
