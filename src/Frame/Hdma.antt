-- ===== src/Frame/Hdma.antt =====
-- `SimpleHdma` and the pointers of runner/src/common_rtl.c. A pointer is an offset into `g_ram` or
-- `g_rom`.
pub mod Entry
pub mod Pointers
use snesrecomp.Base.{
  ℕ, zero, suc, ◌+◌, ◌*◌, ◌/◌, ◌%◌, ◌^◌, Bool, true, false, not, ◌&&◌, ◌||◌, bit_or,
}
use snesrecomp.Base.{
  List, [], ◌∷◌, Option, none, some, if◌then◌else◌, ltb, leb, ◌==◌, u8, u16, test_bit, Memory,
}
use snesrecomp.Bus.Map.{rom_index}

pub data Pointer : Type 0 where
  in_ram in_rom : ℕ → Pointer

abbrev pub forward : Pointer → ℕ → Pointer
forward (in_ram i) n = in_ram (i + n)
forward (in_rom i) n = in_rom (i + n)

-- `*p`. The arrays are taken to go on: an access past the end of `g_ram` or of the image, which C does
-- not define, is not told apart.
abbrev pub peek : Memory → Memory → Pointer → ℕ
peek ram rom (in_ram i) = ram i
peek ram rom (in_rom i) = rom i

-- `SimpleHdma_GetPtr`; the argument is the size of the image that `RomPtr` wraps at. Its flag
-- `g_fail` is not kept.
pub get_ptr : Option ℕ → ℕ → Pointer
get_ptr cart p =
    let bank = u8 (p / 2 ^ 16) in
    let addr = u16 p in
    if bank == 0x7e
    then in_ram addr
    else if bank == 0x7f
    then in_ram (0x10000 + addr)
    else if (ltb bank 0x40 || (leb 0x80 bank && ltb bank 0xc0)) && ltb addr 0x2000
    then in_ram addr
    else in_rom (rom_index cart p)

-- `MvnPtr`, the pointers of the block moves.
pub mvn_ptr : ℕ → ℕ → Pointer
mvn_ptr bank addr =
    if bank == 0x7e
    then in_ram addr
    else if bank == 0x7f
    then in_ram (0x10000 + addr)
    else if (ltb bank 0x40 || (leb 0x80 bank && ltb bank 0xc0)) && ltb addr 0x2000
    then in_ram addr
    else in_rom (bit_or (bank * 2 ^ 15) (addr % 2 ^ 15) % 2 ^ 22)

pub record SimpleHdma : Type 0 where
  pub table : Option Pointer
  pub indir_ptr : Pointer
  pub rep_count : ℕ
  pub mode : ℕ
  pub ppu_addr : ℕ
  pub indir_bank : ℕ

-- `bAdrOffsets[mode & 7]`, as many as `transferLength[mode & 7]`.
unfoldable pub offsets : ℕ → List ℕ
offsets zero = 0 ∷ []
offsets (suc zero) = 0 ∷ 1 ∷ []
offsets (suc (suc zero)) = 0 ∷ 0 ∷ []
offsets (suc (suc (suc zero))) = 0 ∷ 0 ∷ 1 ∷ 1 ∷ []
offsets (suc (suc (suc (suc zero)))) = 0 ∷ 1 ∷ 2 ∷ 3 ∷ []
offsets (suc (suc (suc (suc (suc zero))))) = 0 ∷ 1 ∷ 0 ∷ 1 ∷ []
offsets (suc (suc (suc (suc (suc (suc zero)))))) = 0 ∷ 0 ∷ []
offsets (suc (suc (suc (suc (suc (suc (suc i))))))) = 0 ∷ 0 ∷ 1 ∷ 1 ∷ []

-- The stores to the PPU of one transfer, from `p` on.
pub writes : Memory → Memory → ℕ → Pointer → List ℕ → List (ℕ × ℕ)
writes ram rom ppu_addr p [] = []
writes ram rom ppu_addr p (offset ∷ rest) =
    (u16 (0x2100 + ppu_addr + offset), peek ram rom p) ∷ writes ram rom ppu_addr (forward p 1) rest

abbrev pub count_of : List ℕ → ℕ
count_of [] = 0
count_of (x ∷ xs) = suc (count_of xs)

-- The `if (do_transfer || ...)` and the count, with the table at `p`.
pub transfer : Memory → Memory → Bool → SimpleHdma → Pointer → SimpleHdma × List (ℕ × ℕ)
transfer ram rom first c p =
    let places = offsets (c.mode % 2 ^ 3) in
    let n = count_of places in
    let c' = record c { rep_count = u8 (c.rep_count + 255) } in
    if not (first || test_bit c.rep_count 7)
    then (record c' { table = some p }, [])
    else if test_bit c.mode 6
    then (
      record c' { table = some p; indir_ptr = forward c.indir_ptr n },
      writes ram rom c.ppu_addr c.indir_ptr places,
    )
    else (record c' { table = some (forward p n) }, writes ram rom c.ppu_addr p places)

-- A new entry whose count byte stands at `p`.
pub next_entry : Memory → Memory → Option ℕ → SimpleHdma → Pointer → SimpleHdma × List (ℕ × ℕ)
next_entry ram rom cart c p =
    let count = peek ram rom p in
    let c' = record c { rep_count = count } in
    let q = forward p 1 in
    let target =
      get_ptr cart (c.indir_bank * 2 ^ 16 + peek ram rom q + peek ram rom (forward q 1) * 2 ^ 8) in
    if count == 0
    then (record c' { table = none }, [])
    else if test_bit c.mode 6
    then transfer ram rom true (record c' { indir_ptr = target }) (forward q 2)
    else transfer ram rom true c' q

-- `SimpleHdma_DoLine`: the state and the stores to the PPU.
pub do_line : Memory → Memory → Option ℕ → SimpleHdma → SimpleHdma × List (ℕ × ℕ)
do_line ram rom cart c = elim c.table [
  | none ↦ (c, [])
  | some p ↦
      if c.rep_count % 2 ^ 7 == 0 then next_entry ram rom cart c p else transfer ram rom false c p
]

-- The fields of a DMA channel that `SimpleHdma_Init` reads.
pub hdma_init : Option ℕ → SimpleHdma → Bool → ℕ → ℕ → ℕ → Bool → ℕ → ℕ → SimpleHdma
hdma_init cart c active a_adr a_bank mode indirect b_adr ind_bank =
    if not active then (record c { table = none }) else (record c {
      table = some (get_ptr cart (a_adr + a_bank * 2 ^ 16));
      rep_count = 0;
      mode = if indirect then mode + 2 ^ 6 else mode;
      ppu_addr = b_adr;
      indir_bank = ind_bank;
    })
