-- ===== src/Dma/Cycles.antt =====
-- How long a DMA takes: the calls of `dma_doDma` until the controller is no longer busy.
use snesrecomp.Base.{
  ℕ, zero, suc, ◌+◌, ◌-◌, ◌*◌, ◌/◌, ◌%◌, ◌^◌, ◌≤◌, ◌<◌, ◌≡◌, ◌≢◌, Bool, true, false, none, some,
  ◌==◌, if◌then◌else◌, arith, refl, Option-cases, inl, inr, ◌⊎◌, ℕ_discrete, Bool-cases, ap, ◌∙◌,
  ==_ne, ==_refl, u16,
}
use std.Path.{subst}
use snesrecomp.Dma.{Channel, Dma}
use snesrecomp.Dma.Transfer.{
  finish, System, Port, first_active, bump, advance, do_channel, transfer_byte, do_dma,
}

-- The bytes that a channel still transfers; a size of 0 means 65536.
abbrev pub remaining : Channel → ℕ
remaining ch = if ch.size == 0 then 2 ^ 16 else ch.size

-- A byte takes a call, and three more of the timer; the end of the channel takes four more.
abbrev pub channel_calls : Channel → ℕ
channel_calls ch = if ch.dma_active then 4 * remaining ch + 4 else 0

unfoldable pub calls_from : (ℕ → Channel) → ℕ → ℕ → ℕ
calls_from ch zero i = 0
calls_from ch (suc left) i = channel_calls (ch i) + calls_from ch left (i + 1)

-- All that is left to do, with the call that finds no active channel.
unfoldable pub calls : Dma → ℕ
calls d = d.dma_timer / 2 + calls_from d.channel 8 0 + 1

-- The buses do not reach the controller: the A bus not at the banks and addresses that are spared, and
-- the B bus nowhere.
abbrev pub IsQuiet : {B : Type 0} → (ℕ → ℕ → Type 0) → Port B → Type 0
IsQuiet {B} spared port =
    ((s : System B) (bank a : ℕ)
      → spared bank a
      → a < 2 ^ 16
      → (port.read s (bank * 2 ^ 16 + a)).1.dma ≡ s.dma)
    × ((s : System B) (bank a v : ℕ)
        → spared bank a
        → a < 2 ^ 16
        → (port.write s (bank * 2 ^ 16 + a) v).dma ≡ s.dma)
    × ((s : System B) (a : ℕ) → (port.read_b_bus s a).1.dma ≡ s.dma)
    × ((s : System B) (a v : ℕ) → (port.write_b_bus s a v).dma ≡ s.dma)

-- Where the A bus is for the byte after `k` others.
abbrev pub visit : Channel → ℕ → ℕ
visit ch k =
    if ch.fixed
    then ch.a_adr
    else if ch.decrement
    then u16 (ch.a_adr + k * (2 ^ 16 - 1))
    else u16 (ch.a_adr + k)

-- All that the channel still transfers lies where it is spared.
abbrev pub IsClear : (ℕ → ℕ → Type 0) → Channel → Type 0
IsClear spared ch = (k : ℕ) → k < remaining ch → spared ch.a_bank (visit ch k)

-- Sizes and addresses are 16-bit words, and the timer is even and small; the active channels go where
-- it is spared.
pub record IsReady (spared : ℕ → ℕ → Type 0) (d : Dma) : Type 0 where
  pub sizes : (i : ℕ) → (d.channel i).size < 2 ^ 16
  pub adrs : (i : ℕ) → (d.channel i).a_adr < 2 ^ 16
  pub banks : (i : ℕ) → (d.channel i).dma_active ≡ true → IsClear spared (d.channel i)
  pub even : d.dma_timer % 2 ≡ 0
  pub small : d.dma_timer < 2 ^ 31

first_active-none :
    (ch : ℕ → Channel) (left i : ℕ)
    → first_active ch (suc left) i ≡ none
    → ((ch i).dma_active ≡ false) × (first_active ch left (i + 1) ≡ none)
unfolding first_active
first_active-none ch left i e = (ground arith, ground arith)

calls_from-none :
    (ch : ℕ → Channel) (left i : ℕ) → first_active ch left i ≡ none → calls_from ch left i ≡ 0
unfolding calls_from
calls_from-none ch zero i e = refl
calls_from-none ch (suc left) i e =
    let (off, e') = first_active-none ch left i e in
    ground (arith, calls_from-none ch left (i + 1) e')

first_active-suc :
    (ch : ℕ → Channel) (left i j : ℕ)
    → first_active ch (suc left) i ≡ some j
    → ((j ≡ i) × ((ch i).dma_active ≡ true)) ⊎ (first_active ch left (i + 1) ≡ some j)
unfolding first_active
first_active-suc ch left i j e = elim (Bool-cases ((ch i).dma_active)) [
  | inl on ↦ inl (ground arith, on)
  | inr off ↦ inr (ground arith)
]

first_active-some :
    (ch : ℕ → Channel) (left i j : ℕ)
    → first_active ch left i ≡ some j
    → (i ≤ j) × (j < i + left) × ((ch j).dma_active ≡ true)
first_active-some ch zero i j e = absurd (unfold first_active in cc)
first_active-some ch (suc left) i j e = elim (first_active-suc ch left i j e) [
  | inl (here, on) ↦ (omega arith, omega arith, rw here on)
  | inr later ↦
      let (a, b, on) = first_active-some ch left (i + 1) j later in (omega arith, omega arith, on)
]

-- The cost with another channel in the place of one.
calls_from-before :
    (ch : ℕ → Channel) (c : Channel) (left i j : ℕ)
    → j < i
    → calls_from (λ k. if k == j then c else ch k) left i ≡ calls_from ch left i
unfolding calls_from
calls_from-before ch c zero i j h = refl
calls_from-before ch c (suc left) i j h =
    ground (arith, calls_from-before ch c left (i + 1) j (omega arith))

calls_from-set :
    (ch : ℕ → Channel) (c : Channel) (left i j : ℕ)
    → i ≤ j
    → j < i + left
    → calls_from (λ k. if k == j then c else ch k) left i + channel_calls (ch j)
      ≡ calls_from ch left i + channel_calls c
unfolding calls_from
calls_from-set ch c zero i j h g = absurd (omega arith)
calls_from-set ch c (suc left) i j h g = elim (ℕ_discrete i j) [
  | yes e ↦ ground (arith, calls_from-before ch c left (i + 1) j (omega arith))
  | no n ↦ ground (arith, calls_from-set ch c left (i + 1) j (omega arith) (omega arith))
]

-- A byte of an active channel costs what the timer does not take.
advance_calls :
    (ch : Channel)
    → ch.dma_active ≡ true
    → ch.size < 2 ^ 16
    → let c = advance (bump ch) in
      (channel_calls ch ≡ channel_calls c + 1 + (if c.size == 0 then 14 else 6) / 2)
      × (c.size < 2 ^ 16)
unfolding advance
advance_calls ch on h = (ground arith, ground arith)

advance_adr : (ch : Channel) → ch.a_adr < 2 ^ 16 → (advance (bump ch)).a_adr < 2 ^ 16
unfolding advance
advance_adr ch h = ground arith

advance_bank : (ch : Channel) → (advance (bump ch)).a_bank ≡ ch.a_bank
unfolding advance
advance_bank ch = ground arith

advance-remaining :
    (ch : Channel)
    → ch.size < 2 ^ 16
    → (advance (bump ch)).dma_active ≡ true
    → remaining ch ≡ remaining (advance (bump ch)) + 1
unfolding advance
advance-remaining ch h on = ground arith

advance-visit : (ch : Channel) (k : ℕ) → visit (advance (bump ch)) k ≡ visit ch (k + 1)
unfolding advance
advance-visit ch k = ground arith

visit_first : (ch : Channel) → ch.a_adr < 2 ^ 16 → visit ch 0 ≡ ch.a_adr
visit_first ch h = ground arith

remaining-pos : (ch : Channel) → 0 < remaining ch
remaining-pos ch = ground arith

advance-IsClear :
    (spared : ℕ → ℕ → Type 0) (ch : Channel)
    → ch.size < 2 ^ 16
    → IsClear spared ch
    → (advance (bump ch)).dma_active ≡ true
    → IsClear spared (advance (bump ch))
advance-IsClear spared ch h clear on k less =
    rw (advance_bank ch, advance-visit ch k)
      (clear (k + 1) (omega (arith, advance-remaining ch h on)))

module _ {B : Type 0} (spared : ℕ → ℕ → Type 0) (port : Port B) (quiet : IsQuiet spared port) where
  transfer_byte-quiet :
      (s : System B) (a bank b : ℕ) (from_b : Bool)
      → spared bank a
      → a < 2 ^ 16
      → (transfer_byte port s a bank b from_b).dma ≡ s.dma
  unfolding transfer_byte
  transfer_byte-quiet s a bank b true ok h =
      let (r, w, rb, wb) = quiet in w _ bank a _ ok h ∙ rb s b
  transfer_byte-quiet s a bank b false ok h =
      let (r, w, rb, wb) = quiet in wb _ _ _ ∙ r s bank a ok h

  do_channel-dma :
      (s : System B) (i : ℕ)
      → spared (s.dma.channel i).a_bank (s.dma.channel i).a_adr
      → (s.dma.channel i).a_adr < 2 ^ 16
      → let c = advance (bump (s.dma.channel i)) in
        (do_channel port s i).dma ≡ record s.dma {
          channel = λ k. if k == i then c else s.dma.channel k;
          dma_timer = (s.dma.dma_timer + (if c.size == 0 then 14 else 6)) % 2 ^ 32;
        }
  unfolding do_channel
  do_channel-dma s i ok h =
      ap (λ d. finish d i) (transfer_byte-quiet _ _ _ _ _ ok h) ∙ (unfold finish in ground arith)

  -- What is left after one call.
  abbrev Left : Dma → Dma → Type 0
  Left d d' =
      IsReady spared d'
      × (((d'.dma_busy ≡ true) × (calls d ≡ calls d' + 1))
          ⊎ ((d'.dma_busy ≡ false) × (calls d ≡ 1) × (first_active d'.channel 8 0 ≡ none)))

  wait-Left :
      (d : Dma)
      → IsReady spared d
      → d.dma_busy ≡ true
      → d.dma_timer ≢ 0
      → Left d (record d { dma_timer = (d.dma_timer + (2 ^ 32 - 2)) % 2 ^ 32 })
  unfolding calls
  wait-Left d ready busy n =
      let timer : (d.dma_timer + (2 ^ 32 - 2)) % 2 ^ 32 ≡ d.dma_timer - 2 =
        omega (arith, ready.small, ready.even) in
      (
        record {
          sizes = ready.sizes;
          adrs = ready.adrs;
          banks = ready.banks;
          even = omega (arith, ready.even);
          small = omega (arith, ready.small);
        },
        inl (busy, omega (arith, ready.even)),
      )

  stop-Left :
      (d : Dma)
      → IsReady spared d
      → d.dma_timer ≡ 0
      → first_active d.channel 8 0 ≡ none
      → Left d (record d { dma_busy = false })
  unfolding calls
  stop-Left d ready z e = (
    record {
      sizes = ready.sizes;
      adrs = ready.adrs;
      banks = ready.banks;
      even = ready.even;
      small = ready.small;
    },
    inr (refl, omega (arith, calls_from-none d.channel 8 0 e), e),
  )

  byte-Left :
      (d : Dma) (i : ℕ)
      → IsReady spared d
      → d.dma_busy ≡ true
      → d.dma_timer ≡ 0
      → first_active d.channel 8 0 ≡ some i
      → let c = advance (bump (d.channel i)) in
        Left d (record d {
          channel = λ k. if k == i then c else d.channel k;
          dma_timer = (d.dma_timer + (if c.size == 0 then 14 else 6)) % 2 ^ 32;
        })
  unfolding calls
  byte-Left d i ready busy z e =
      let c = advance (bump (d.channel i)) in
      let (lo, hi, on) = first_active-some d.channel 8 0 i e in
      let (cost, small) = advance_calls (d.channel i) on (ready.sizes i) in
      let total = calls_from-set d.channel c 8 0 i lo hi in
      (
        record {
          sizes = λ k. elim (ℕ_discrete k i) [
            | yes here ↦ ground arith
            | no there ↦ ground (arith, ready.sizes k)
          ];
          adrs = λ k. elim (ℕ_discrete k i) [
            | yes here ↦ ground (arith, advance_adr (d.channel i) (ready.adrs i))
            | no there ↦ ground (arith, ready.adrs k)
          ];
          banks = λ k. elim (ℕ_discrete k i) [
            | yes here ↦
                rw (here, ==_refl i)
                  (advance-IsClear spared (d.channel i) (ready.sizes i) (ready.banks i on))
            | no there ↦ rw (==_ne k i there) (ready.banks k)
          ];
          even = ground arith;
          small = ground arith;
        },
        inl (busy, ground (arith, cost, total)),
      )

  -- Every call of a busy controller takes exactly one off what is left to do.
  pub calls-do_dma :
      (s : System B)
      → IsReady spared s.dma
      → s.dma.dma_busy ≡ true
      → let s' = do_dma port s in
        IsReady spared s'.dma
        × (((s'.dma.dma_busy ≡ true) × (calls s.dma ≡ calls s'.dma + 1))
            ⊎ ((s'.dma.dma_busy ≡ false)
                × (calls s.dma ≡ 1)
                × (first_active s'.dma.channel 8 0 ≡ none)))
  calls-do_dma s ready busy = elim (ℕ_discrete s.dma.dma_timer 0) [
    | no n ↦
        let same : (do_dma port s).dma
            ≡ record s.dma { dma_timer = (s.dma.dma_timer + (2 ^ 32 - 2)) % 2 ^ 32 } =
          unfold do_dma in ground arith in
        rw same (wait-Left s.dma ready busy n)
    | yes z ↦ elim (Option-cases (first_active s.dma.channel 8 0)) [
      | inl e ↦
          let same : (do_dma port s).dma ≡ record s.dma { dma_busy = false } =
            unfold do_dma in ground arith in
          rw same (stop-Left s.dma ready z e)
      | inr (i, e) ↦
          let same : (do_dma port s).dma ≡ (do_channel port s i).dma =
            unfold do_dma in ground arith in
          let (lo, hi, on) = first_active-some s.dma.channel 8 0 i e in
          let ch = s.dma.channel i in
          let here : spared ch.a_bank ch.a_adr =
            subst (spared ch.a_bank) (visit_first ch (ready.adrs i))
              (ready.banks i on 0 (remaining-pos ch)) in
          rw (same ∙ do_channel-dma s i here (ready.adrs i)) (byte-Left s.dma i ready busy z e)
    ]
  ]
