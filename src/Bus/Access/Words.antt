-- ===== src/Bus/Access/Words.antt =====
-- Word access: two byte accesses where both bytes are cells, and what happens at the edges.
use snesrecomp.Base.{
  ℕ, ◌+◌, ◌^◌, ◌<◌, ◌≡◌, ◌∙◌, ap, Bool, true, false, none, some, Option-cases, inl, inr, word,
  byte_lo, byte_hi, u16, arith,
}
use snesrecomp.Bus.Map.{ram_offset, is_hw_reg, sram_offset}
use snesrecomp.Bus.Access.{Machine, Registers, sram_at, read8, write8, read16, write16}
use snesrecomp.Bus.Access.Bytes.{
  Cell, same_cell, same_cell_refl, cell_at, cell_at-store, content-store, store, read8-cell,
  write8-cell,
}

-- Two neighbouring addresses in WRAM have neighbouring offsets.
ram_offset-suc :
    (bank addr : ℕ) {i j : ℕ}
    → addr + 1 < 2 ^ 16
    → ram_offset bank addr ≡ some i
    → ram_offset bank (addr + 1) ≡ some j
    → (j ≡ i + 1) × (i + 1 < 0x20000)
unfolding ram_offset
ram_offset-suc bank addr h p q = ground arith

-- The edge of a WRAM window is next to a register or, in bank $7F, to nothing.
ram_offset-edge :
    (present : Bool) (size bank addr : ℕ) {i : ℕ}
    → addr + 1 < 2 ^ 16
    → ram_offset bank addr ≡ some i
    → ram_offset bank (addr + 1) ≡ none
    → is_hw_reg bank (addr + 1) ≡ true
unfolding ram_offset is_hw_reg
ram_offset-edge present size bank addr h p q = ground arith

-- Battery RAM is not next to WRAM.
sram_offset-edge :
    (present : Bool) (size bank addr : ℕ) {i : ℕ}
    → addr + 1 < 2 ^ 16
    → ram_offset bank addr ≡ none
    → sram_offset present size bank addr ≡ some i
    → ram_offset bank (addr + 1) ≡ none
unfolding ram_offset sram_offset
sram_offset-edge present size bank addr h p q = ground arith

-- A cell outside WRAM is battery RAM.
battery-of-cell :
    {D : Type 0} (m : Machine D) (bank addr : ℕ) {c : Cell}
    → ram_offset bank addr ≡ none
    → cell_at m bank addr ≡ some c
    → (i : ℕ) × (is_hw_reg bank addr ≡ false) × (sram_at m bank addr ≡ some i)
battery-of-cell m bank addr p h = elim (Option-cases (sram_at m bank addr)) [
  | inl q ↦ absurd (ground arith)
  | inr (i, q) ↦ (i, ground arith, q)
]

module _ {D : Type 0} (reg : Registers D) (m : Machine D) (bank addr : ℕ)
    (fits : addr + 1 < 2 ^ 16) where
  -- Where the byte at `addr` and the next one are cells, a word read is the two byte reads, and
  -- a word store is the two byte stores, low byte first.
  pub word-bytes :
      (v : ℕ) {c d : Cell}
      → cell_at m bank addr ≡ some c
      → cell_at m bank (addr + 1) ≡ some d
      → (read16 reg m bank addr
          ≡ (word (read8 reg m bank addr).0 (read8 reg m bank (addr + 1)).0, m))
        × (write16 reg m bank addr v
            ≡ write8 reg (write8 reg m bank addr (byte_lo v)) bank (addr + 1) (byte_hi v))
  word-bytes v hc hd = elim (Option-cases (ram_offset bank addr)) [
    | inl p ↦
        let (i, hw, si) = battery-of-cell m bank addr p hc in
        let q : ram_offset bank (addr + 1) ≡ none =
          sram_offset-edge m.sram_present m.sram_size bank addr fits p si in
        let (j, hw', sj) = battery-of-cell m bank (addr + 1) q hd in
        let w : u16 (addr + 1) ≡ addr + 1 = omega arith in
        (unfold read16 read8 in ground arith, unfold write16 write8 in ground arith)
    | inr (i, p) ↦ elim (Option-cases (ram_offset bank (addr + 1))) [
      | inl q ↦ ground (arith, ram_offset-edge m.sram_present m.sram_size bank addr fits p q)
      | inr (j, q) ↦
          let n : (j ≡ i + 1) × (i + 1 < 0x20000) = ram_offset-suc bank addr fits p q in
          (unfold read16 read8 in ground arith, unfold write16 write8 in ground arith)
    ]
  ]

-- At every address but the last of a bank, a word that is stored comes back from a word read, where
-- both of its bytes are cells and these are different: a battery RAM of one byte is excluded.
pub read16-write16 :
    {D : Type 0} (reg : Registers D) (m : Machine D) (bank addr v : ℕ) (c d : Cell)
    → addr + 1 < 2 ^ 16
    → v < 2 ^ 16
    → cell_at m bank addr ≡ some c
    → cell_at m bank (addr + 1) ≡ some d
    → same_cell d c ≡ false
    → read16 reg (write16 reg m bank addr v) bank addr ≡ (v, write16 reg m bank addr v)
read16-write16 {D} reg m bank addr v c d fits hv hc hd ne =
    rw stored ((word-bytes reg after bank addr fits v hc' hd').0 ∙ ap (λ t. (t, after)) value)
  where
    after : Machine D
    after = store (store m c (byte_lo v)) d (byte_hi v)

    hc' : cell_at after bank addr ≡ some c
    hc' = cell_at-store _ d _ bank addr ∙ (cell_at-store m c _ bank addr ∙ hc)

    hd' : cell_at after bank (addr + 1) ≡ some d
    hd' = cell_at-store _ d _ bank (addr + 1) ∙ (cell_at-store m c _ bank (addr + 1) ∙ hd)

    stored : write16 reg m bank addr v ≡ after
    stored =
        (word-bytes reg m bank addr fits v hc hd).1
        ∙ rw (write8-cell reg m bank addr (byte_lo v) c hc) (
            write8-cell reg _ bank (addr + 1) (byte_hi v) d
              (cell_at-store m c _ bank (addr + 1) ∙ hd))

    value : word (read8 reg after bank addr).0 (read8 reg after bank (addr + 1)).0 ≡ v
    value =
        rw
          (
            read8-cell reg after bank addr c hc',
            read8-cell reg after bank (addr + 1) d hd',
            content-store (store m c (byte_lo v)) d c (byte_hi v),
            content-store (store m c (byte_lo v)) d d (byte_hi v),
            content-store m c c (byte_lo v),
            same_cell_refl d,
            same_cell_refl c,
            ne,
          )
          (omega arith)

-- The last word of WRAM, at $7F:FFFF, is not handled byte by byte: a word store there changes
-- nothing, not even the low byte, which a byte store at the same address does change.
pub write16_last_word_dropped :
    {D : Type 0} (reg : Registers D) (m : Machine D) (v : ℕ)
    → (write16 reg m 0x7f 0xffff v ≡ m)
      × ((write8 reg m 0x7f 0xffff (byte_lo v)).ram 0x1ffff ≡ byte_lo v)
unfolding write16 write8 ram_offset is_hw_reg sram_offset
write16_last_word_dropped reg m v = (ground arith, ground arith)
