-- ===== src/Dma/Registers.antt =====
-- `dma_read` and `dma_write`: the registers $43x0-$43xF.
use snesrecomp.Base.{
  ℕ, ◌+◌, ◌*◌, ◌/◌, ◌%◌, ◌^◌, ◌<◌, ◌≡◌, ◌≢◌, ◌⊎◌, inl, inr, ap, sym, ◌∙◌, ℕ_discrete, ◌==◌,
  if◌then◌else◌, of_bool, test_bit, byte_lo, byte_hi, arith, refl,
}
use snesrecomp.Dma.{Channel, Dma, set_channel}

-- The cases of the two switches.
pub data Reg : Type 0 where
  control b_address a_low a_high a_bank_reg size_low size_high ind_bank_reg table_low table_high
        rep_count_reg unused no_reg :
      Reg

unfoldable pub reg_of : ℕ → Reg
reg_of adr =
    let r = adr % 2 ^ 4 in
    if r == 0x0
    then control
    else if r == 0x1
    then b_address
    else if r == 0x2
    then a_low
    else if r == 0x3
    then a_high
    else if r == 0x4
    then a_bank_reg
    else if r == 0x5
    then size_low
    else if r == 0x6
    then size_high
    else if r == 0x7
    then ind_bank_reg
    else if r == 0x8
    then table_low
    else if r == 0x9
    then table_high
    else if r == 0xa
    then rep_count_reg
    else if r == 0xb
    then unused
    else if r == 0xf
    then unused
    else no_reg

unfoldable pub channel_of : ℕ → ℕ
channel_of adr = adr / 2 ^ 4 % 2 ^ 3

-- The fields are different bits, so `|` of them is their sum.
unfoldable pub read_channel : Reg → Channel → ℕ
read_channel control ch =
    ch.mode
    + of_bool ch.fixed * 2 ^ 3
    + of_bool ch.decrement * 2 ^ 4
    + of_bool ch.unused_bit * 2 ^ 5
    + of_bool ch.indirect * 2 ^ 6
    + of_bool ch.from_b * 2 ^ 7
read_channel b_address ch = ch.b_adr
read_channel a_low ch = byte_lo ch.a_adr
read_channel a_high ch = byte_hi ch.a_adr
read_channel a_bank_reg ch = ch.a_bank
read_channel size_low ch = byte_lo ch.size
read_channel size_high ch = byte_hi ch.size
read_channel ind_bank_reg ch = ch.ind_bank
read_channel table_low ch = byte_lo ch.table_adr
read_channel table_high ch = byte_hi ch.table_adr
read_channel rep_count_reg ch = ch.rep_count
read_channel unused ch = ch.unused_byte
read_channel no_reg ch = 0

-- The low byte of a 16-bit field is replaced, or its high byte.
abbrev pub set_low : ℕ → ℕ → ℕ
set_low w v = byte_hi w * 2 ^ 8 + v

abbrev pub set_high : ℕ → ℕ → ℕ
set_high w v = byte_lo w + v * 2 ^ 8

unfoldable pub write_channel : Reg → ℕ → Channel → Channel
write_channel control v ch = record ch {
  mode = v % 2 ^ 3;
  fixed = test_bit v 3;
  decrement = test_bit v 4;
  unused_bit = test_bit v 5;
  indirect = test_bit v 6;
  from_b = test_bit v 7;
}
write_channel b_address v ch = record ch { b_adr = v }
write_channel a_low v ch = record ch { a_adr = set_low ch.a_adr v }
write_channel a_high v ch = record ch { a_adr = set_high ch.a_adr v }
write_channel a_bank_reg v ch = record ch { a_bank = v }
write_channel size_low v ch = record ch { size = set_low ch.size v }
write_channel size_high v ch = record ch { size = set_high ch.size v }
write_channel ind_bank_reg v ch = record ch { ind_bank = v }
write_channel table_low v ch = record ch { table_adr = set_low ch.table_adr v }
write_channel table_high v ch = record ch { table_adr = set_high ch.table_adr v }
write_channel rep_count_reg v ch = record ch { rep_count = v }
write_channel unused v ch = record ch { unused_byte = v }
write_channel no_reg v ch = ch

-- `dma_read`
unfoldable pub read : Dma → ℕ → ℕ
unfolding read_channel
read d adr = read_channel (reg_of adr) (d.channel (channel_of adr))

-- `dma_write`
unfoldable pub write : Dma → ℕ → ℕ → Dma
unfolding write_channel
write d adr v =
    set_channel d (channel_of adr) (write_channel (reg_of adr) v (d.channel (channel_of adr)))

bit_of : (v k : ℕ) → of_bool (test_bit v k) ≡ v / 2 ^ k % 2
bit_of v k = grind arith

-- The bits of a byte that the control register keeps.
control_bits :
    (v : ℕ)
    → v < 2 ^ 8
    → v % 2 ^ 3
        + v / 2 ^ 3 % 2 * 2 ^ 3
        + v / 2 ^ 4 % 2 * 2 ^ 4
        + v / 2 ^ 5 % 2 * 2 ^ 5
        + v / 2 ^ 6 % 2 * 2 ^ 6
        + v / 2 ^ 7 % 2 * 2 ^ 7
      ≡ v
control_bits v h = omega arith

same_reg :
    (r : Reg) (v : ℕ) (ch : Channel)
    → v < 2 ^ 8
    → r ≢ no_reg
    → read_channel r (write_channel r v ch) ≡ v
unfolding read_channel write_channel
same_reg control v ch h n =
    omega (arith, bit_of v 3, bit_of v 4, bit_of v 5, bit_of v 6, bit_of v 7, control_bits v h)
same_reg a_low v ch h n = omega arith
same_reg a_high v ch h n = omega arith
same_reg size_low v ch h n = omega arith
same_reg size_high v ch h n = omega arith
same_reg table_low v ch h n = omega arith
same_reg table_high v ch h n = omega arith
same_reg no_reg v ch h n = absurd (n refl)
same_reg _ v ch h n = refl

other_reg :
    (r q : Reg) (v : ℕ) (ch : Channel)
    → v < 2 ^ 8
    → r ≢ q
    → read_channel q (write_channel r v ch) ≡ read_channel q ch
unfolding read_channel write_channel
other_reg control control v ch h n = absurd (n refl)
other_reg control _ v ch h n = refl
other_reg b_address b_address v ch h n = absurd (n refl)
other_reg b_address _ v ch h n = refl
other_reg a_low a_low v ch h n = absurd (n refl)
other_reg a_low a_high v ch h n = omega arith
other_reg a_low _ v ch h n = refl
other_reg a_high a_high v ch h n = absurd (n refl)
other_reg a_high a_low v ch h n = omega arith
other_reg a_high _ v ch h n = refl
other_reg a_bank_reg a_bank_reg v ch h n = absurd (n refl)
other_reg a_bank_reg _ v ch h n = refl
other_reg size_low size_low v ch h n = absurd (n refl)
other_reg size_low size_high v ch h n = omega arith
other_reg size_low _ v ch h n = refl
other_reg size_high size_high v ch h n = absurd (n refl)
other_reg size_high size_low v ch h n = omega arith
other_reg size_high _ v ch h n = refl
other_reg ind_bank_reg ind_bank_reg v ch h n = absurd (n refl)
other_reg ind_bank_reg _ v ch h n = refl
other_reg table_low table_low v ch h n = absurd (n refl)
other_reg table_low table_high v ch h n = omega arith
other_reg table_low _ v ch h n = refl
other_reg table_high table_high v ch h n = absurd (n refl)
other_reg table_high table_low v ch h n = omega arith
other_reg table_high _ v ch h n = refl
other_reg rep_count_reg rep_count_reg v ch h n = absurd (n refl)
other_reg rep_count_reg _ v ch h n = refl
other_reg unused unused v ch h n = absurd (n refl)
other_reg unused _ v ch h n = refl
other_reg no_reg q v ch h n = refl

channel_self : (d : Dma) (c c' : ℕ) (ch : Channel) → c ≡ c' → (set_channel d c ch).channel c' ≡ ch
channel_self d c c' ch e = ground arith

channel_other :
    (d : Dma) (c c' : ℕ) (ch : Channel) → c ≢ c' → (set_channel d c ch).channel c' ≡ d.channel c'
channel_other d c c' ch n = ground arith

-- A byte written to a register of a channel is what that register then reads, where there is one;
-- every other register of the channel, and every register of the other channels, reads as before.
pub read-write :
    (d : Dma) (adr adr' v : ℕ)
    → v < 2 ^ 8
    → (reg_of adr ≢ no_reg
        → channel_of adr ≡ channel_of adr'
        → reg_of adr ≡ reg_of adr'
        → read (write d adr v) adr' ≡ v)
      × ((reg_of adr ≢ reg_of adr') ⊎ (channel_of adr ≢ channel_of adr')
          → read (write d adr v) adr' ≡ read d adr')
read-write d adr adr' v h = (same, other)
  where
    r : Reg
    r = reg_of adr

    c : ℕ
    c = channel_of adr

    ch : Channel
    ch = write_channel r v (d.channel c)

    same :
        reg_of adr ≢ no_reg
        → channel_of adr ≡ channel_of adr'
        → reg_of adr ≡ reg_of adr'
        → read (write d adr v) adr' ≡ v
    same n ec er =
        unfold read write in
        (ap (read_channel (reg_of adr')) (channel_self d c (channel_of adr') ch ec)
          ∙ ap (λ q. read_channel q ch) (sym er)
          ∙ same_reg r v (d.channel c) h n)

    other :
        (reg_of adr ≢ reg_of adr') ⊎ (channel_of adr ≢ channel_of adr')
        → read (write d adr v) adr' ≡ read d adr'
    other differ =
        unfold read write in
        elim (ℕ_discrete c (channel_of adr')) [
          | yes ec ↦
              ap (read_channel (reg_of adr')) (channel_self d c (channel_of adr') ch ec)
              ∙ elim differ [
                | inl nr ↦
                    other_reg r (reg_of adr') v (d.channel c) h nr
                    ∙ ap (λ k. read_channel (reg_of adr') (d.channel k)) ec
                | inr nc ↦ absurd (nc ec)
              ]
          | no nc ↦ ap (read_channel (reg_of adr')) (channel_other d c (channel_of adr') ch nc)
        ]
