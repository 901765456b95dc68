-- ===== src/Bus/Access/Bytes.antt =====
-- Byte access: memory is a map from cells, through all of the mirrors.
use snesrecomp.Base.{
  ℕ, ◌≡◌, ◌∙◌, refl, Bool, true, false, Option, none, some, ◌==◌, ==_refl, if◌then◌else◌, update,
  arith,
}
use snesrecomp.Bus.Map.{ram_offset, is_hw_reg}
use snesrecomp.Bus.Access.{Machine, Registers, sram_at, read8, write8}

-- A byte that can be stored to.
pub data Cell : Type 0 where
  wram : ℕ → Cell
  battery : ℕ → Cell

abbrev pub same_cell : Cell → Cell → Bool
same_cell (wram i) (wram j) = i == j
same_cell (battery i) (battery j) = i == j
same_cell _ _ = false

module _ {D : Type 0} where
  -- The cell that an address names; `none` for a register and for ROM.
  abbrev pub cell_at : Machine D → ℕ → ℕ → Option Cell
  cell_at m bank addr = elim (ram_offset bank addr) [
    | some off ↦ some (wram off)
    | none ↦
        if is_hw_reg bank addr
        then none
        else elim (sram_at m bank addr) [ some off ↦ some (battery off) | none ↦ none ]
  ]

  pub content : Machine D → Cell → ℕ
  content m (wram i) = m.ram i
  content m (battery i) = m.sram i

  pub store : Machine D → Cell → ℕ → Machine D
  store m (wram i) v = record m { ram = update m.ram i v }
  store m (battery i) v = record m { sram = update m.sram i v }

  -- A map from cells.
  pub content-store :
      (m : Machine D) (c d : Cell) (v : ℕ)
      → content (store m c v) d ≡ (if same_cell c d then v else content m d)
  unfolding content store
  content-store m (wram i) (wram j) v = ground arith
  content-store m (wram i) (battery j) v = refl
  content-store m (battery i) (wram j) v = refl
  content-store m (battery i) (battery j) v = ground arith

  pub cell_at-store :
      (m : Machine D) (c : Cell) (v bank addr : ℕ)
      → cell_at (store m c v) bank addr ≡ cell_at m bank addr
  unfolding store
  cell_at-store m (wram i) v bank addr = refl
  cell_at-store m (battery i) v bank addr = refl

pub same_cell_refl : (c : Cell) → same_cell c c ≡ true
same_cell_refl (wram i) = ==_refl i
same_cell_refl (battery i) = ==_refl i

module _ {D : Type 0} (reg : Registers D) where
  pub read8-cell :
      (m : Machine D) (bank addr : ℕ) (c : Cell)
      → cell_at m bank addr ≡ some c
      → read8 reg m bank addr ≡ (content m c, m)
  unfolding read8 content
  read8-cell m bank addr c h = ground arith

  pub write8-cell :
      (m : Machine D) (bank addr v : ℕ) (c : Cell)
      → cell_at m bank addr ≡ some c
      → write8 reg m bank addr v ≡ store m c v
  unfolding write8 store
  write8-cell m bank addr v c h = ground arith

  -- A byte store is seen at every address that names the same cell, whichever mirror it is
  -- written or read through, and nowhere else; reading changes nothing.
  pub read8-write8 :
      (m : Machine D) (bank addr v bank' addr' : ℕ) (c d : Cell)
      → cell_at m bank addr ≡ some c
      → cell_at m bank' addr' ≡ some d
      → read8 reg (write8 reg m bank addr v) bank' addr'
        ≡ ((if same_cell c d then v else (read8 reg m bank' addr').0), write8 reg m bank addr v)
  read8-write8 m bank addr v bank' addr' c d hc hd = rw (
    write8-cell m bank addr v c hc,
    read8-cell m bank' addr' d hd,
    read8-cell (store m c v) bank' addr' d (cell_at-store m c v bank' addr' ∙ hd),
    content-store m c d v,
  )

  -- A store to an address that is neither WRAM, register nor battery RAM is dropped.
  pub write8_dropped :
      (m : Machine D) (bank addr v : ℕ)
      → ram_offset bank addr ≡ none
      → is_hw_reg bank addr ≡ false
      → sram_at m bank addr ≡ none
      → write8 reg m bank addr v ≡ m
  unfolding write8
  write8_dropped m bank addr v a b c = ground arith
