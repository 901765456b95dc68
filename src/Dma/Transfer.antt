-- ===== src/Dma/Transfer.antt =====
-- `dma_doDma`, `dma_transferByte`, `dma_cycle` and `dma_startDma`. The buses are an interface, as
-- an access may reach the controller itself.
use snesrecomp.Base.{
  ℕ, zero, suc, ◌+◌, ◌-◌, ◌*◌, ◌%◌, ◌^◌, List, [], ◌∷◌, Bool, true, false, ◌&&◌, ◌||◌, not, Option,
  none, some, ltb, ◌==◌, ◌!=◌, if◌then◌else◌, get_or, test_bit, u8, u16, u32,
}
use snesrecomp.Dma.{Channel, Dma, set_channel}

-- The controller, what the buses reach, and `g_fail`.
pub record System (B : Type 0) : Type 0 where
  pub dma : Dma
  pub bus : B
  pub fail : Bool

-- `snes_read`, `snes_write`, `snes_readBBus` and `snes_writeBBus`.
pub record Port (B : Type 0) : Type 0 where
  pub read : System B → ℕ → ℕ × System B
  pub write : System B → ℕ → ℕ → System B
  pub read_b_bus : System B → ℕ → ℕ × System B
  pub write_b_bus : System B → ℕ → ℕ → System B

abbrev pub b_adr_offsets : List (List ℕ)
b_adr_offsets =
    (0 ∷ 0 ∷ 0 ∷ 0 ∷ [])
    ∷ (0 ∷ 1 ∷ 0 ∷ 1 ∷ [])
    ∷ (0 ∷ 0 ∷ 0 ∷ 0 ∷ [])
    ∷ (0 ∷ 0 ∷ 1 ∷ 1 ∷ [])
    ∷ (0 ∷ 1 ∷ 2 ∷ 3 ∷ [])
    ∷ (0 ∷ 1 ∷ 0 ∷ 1 ∷ [])
    ∷ (0 ∷ 0 ∷ 0 ∷ 0 ∷ [])
    ∷ (0 ∷ 0 ∷ 1 ∷ 1 ∷ [])
    ∷ []

unfoldable pub b_offset : ℕ → ℕ → ℕ
b_offset mode index = get_or (get_or b_adr_offsets mode []) index 0

-- The lowest of the channels from `i` on, with `left` to look at, that is active.
unfoldable pub first_active : (ℕ → Channel) → ℕ → ℕ → Option ℕ
first_active ch zero i = none
first_active ch (suc left) i =
    let rest = first_active ch left (i + 1) in if (ch i).dma_active then some i else rest

abbrev pub warns : Channel → Bool
warns ch = not ch.from_b && (test_bit ch.a_bank 7 && not (test_bit ch.a_adr 15))

-- The channel's fields after a byte. The offset index has been bumped before the transfer.
unfoldable pub advance : Channel → Channel
advance ch =
    let index = ch.off_index % 2 ^ 2 in
    let adr =
      if ch.fixed
      then ch.a_adr
      else if ch.decrement
      then u16 (ch.a_adr + (2 ^ 16 - 1))
      else u16 (ch.a_adr + 1) in
    let left = u16 (ch.size + (2 ^ 16 - 1)) in
    if left == 0
    then record ch { a_adr = adr; size = 0; off_index = 0; dma_active = false }
    else record ch { a_adr = adr; size = left; off_index = index }

abbrev pub bump : Channel → Channel
bump ch = record ch { off_index = u8 (ch.off_index + 1) }

-- What follows the transfer: 8 clocks for the byte, less the 2 of the call, and 8 at the end.
unfoldable pub finish : Dma → ℕ → Dma
unfolding advance
finish d i =
    let ch = advance (d.channel i) in
    record (set_channel d i ch) { dma_timer = u32 (d.dma_timer + (if ch.size == 0 then 14 else 6)) }

module _ {B : Type 0} (port : Port B) where
  unfoldable pub transfer_byte : System B → ℕ → ℕ → ℕ → Bool → System B
  transfer_byte s a_adr a_bank b_adr from_b =
      let a = a_bank * 2 ^ 16 + a_adr in
      if from_b
      then (let r = port.read_b_bus s b_adr in port.write r.1 a r.0)
      else (let r = port.read s a in port.write_b_bus r.1 b_adr r.0)

  -- One byte of channel `i`.
  unfoldable pub do_channel : System B → ℕ → System B
  unfolding transfer_byte finish
  do_channel s i =
      let ch = s.dma.channel i in
      let s1 = record s { fail = s.fail || warns ch; dma = set_channel s.dma i (bump ch) } in
      let s2 =
        transfer_byte s1 ch.a_adr ch.a_bank (u8 (ch.b_adr + b_offset ch.mode ch.off_index))
          ch.from_b in
      record s2 { dma = finish s2.dma i }

  unfoldable pub do_dma : System B → System B
  do_dma s =
      if ltb 0 s.dma.dma_timer
      then record s { dma = record s.dma { dma_timer = u32 (s.dma.dma_timer + (2 ^ 32 - 2)) } }
      else elim (first_active s.dma.channel 8 0) [
        | none ↦ record s { dma = record s.dma { dma_busy = false } }
        | some i ↦ do_channel s i
      ]

  -- The Boolean tells whether the controller held the bus.
  unfoldable pub cycle : System B → Bool × System B
  unfolding do_dma
  cycle s = if s.dma.dma_busy then (true, do_dma s) else (false, s)

-- `dma_startDma`
unfoldable pub start_dma : Dma → ℕ → Bool → Dma
start_dma d v hdma =
    if hdma
    then record d {
      channel =
          λ i. if ltb i 8 then record (d.channel i) { hdma_active = test_bit v i } else d.channel i;
    }
    else record d {
      channel =
          λ i. if ltb i 8 then record (d.channel i) { dma_active = test_bit v i } else d.channel i;
      dma_busy = v != 0;
      dma_timer = if v != 0 then u32 (d.dma_timer + 16) else d.dma_timer;
    }

module _ {B : Type 0} (port : Port B) where
  -- `while (dma_cycle(dma)) {}`, with fuel.
  unfoldable pub drain : ℕ → System B → Option (System B)
  drain zero s = none
  drain (suc n) s = elim (cycle port s).0 [
    | true ↦ drain n (cycle port s).1
    | false ↦ some (cycle port s).1
  ]

  -- A store to $420B: `dma_startDma(dma, val, false)` and the loop.
  unfoldable pub general_dma : ℕ → System B → ℕ → Option (System B)
  unfolding start_dma
  general_dma fuel s v = drain fuel (record s { dma = start_dma s.dma v false })
