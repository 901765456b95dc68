-- ===== src/Snes/Counters.antt =====
-- The counters that reads of $4212 move on: a wait loop ends.
use snesrecomp.Base.{
  ℕ, zero, suc, ◌+◌, ◌-◌, ◌*◌, ◌/◌, ◌%◌, ◌≤◌, ◌<◌, ◌≡◌, true, false, test_bit, arith, refl, ap,
  dec_lt,
}
use snesrecomp.Snes.{Snes, read_reg, advance_counters, status}

-- The state after `n` reads of $4212.
unfoldable pub polls : {S : Type 0} → ℕ → Snes S → Snes S
polls zero s = s
polls (suc n) s = polls n (read_reg s 0x4212).1

module _ {S : Type 0} where
  -- The dots since the top of the frame.
  abbrev pub position : Snes S → ℕ
  position s = s.v_pos * 1364 + s.h_pos

  pub record InFrame (s : Snes S) : Type 0 where
    pub h_lt : s.h_pos < 1364
    pub v_lt : s.v_pos < 262

  vblank_bit : (s : Snes S) → 225 ≤ s.v_pos → test_bit (status s) 7 ≡ true
  unfolding status
  vblank_bit s h = ground arith

  active_bit : (s : Snes S) → s.v_pos < 225 → s.in_vblank ≡ false → test_bit (status s) 7 ≡ false
  unfolding status
  active_bit s h v = ground arith

  poll : (s : Snes S) → (read_reg s 0x4212).1 ≡ advance_counters s
  unfolding read_reg
  poll s = refl

  polls-suc : (n : ℕ) (s : Snes S) → polls (suc n) s ≡ polls n (advance_counters s)
  unfolding polls
  polls-suc n s = ap (polls n) (poll s)

  advance_counters-position :
      (s : Snes S)
      → InFrame s
      → InFrame (advance_counters s) × (position (advance_counters s) ≡ (position s + 64) % 357368)
  unfolding advance_counters
  advance_counters-position s i = (
    record { h_lt = ground (arith, i.h_lt, i.v_lt); v_lt = ground (arith, i.h_lt, i.v_lt) },
    ground (arith, i.h_lt, i.v_lt),
  )

  polls-position :
      (n : ℕ) (s : Snes S)
      → InFrame s
      → InFrame (polls n s) × (position (polls n s) ≡ (position s + 64 * n) % 357368)
  polls-position zero s i = unfold polls in (i, omega (arith, i.h_lt, i.v_lt))
  polls-position (suc n) s i =
      let (i', moved) = advance_counters-position s i in
      let (i'', there) = polls-position n (advance_counters s) i' in
      rw (polls-suc n s) (i'', omega (arith, moved, there))

  -- Where the `m`-th read is answered.
  answered :
      (m : ℕ) (s : Snes S)
      → InFrame s
      → InFrame (advance_counters (polls m s))
        × (position (advance_counters (polls m s)) ≡ (position s + 64 * (m + 1)) % 357368)
  answered m s i =
      let (i', there) = polls-position m s i in
      let (i'', moved) = advance_counters-position (polls m s) i' in
      (i'', omega (arith, there, moved))

  value : (s : Snes S) → (read_reg s 0x4212).0 ≡ status (advance_counters s)
  unfolding read_reg
  value s = refl

  -- The read that answers at a position of the vertical blank.
  vblank_at :
      (m : ℕ) (s : Snes S)
      → InFrame s
      → 306900 ≤ (position s + 64 * (m + 1)) % 357368
      → test_bit (read_reg (polls m s) 0x4212).0 7 ≡ true
  vblank_at m s i late =
      let (i', there) = answered m s i in
      rw (value (polls m s))
        (vblank_bit (advance_counters (polls m s)) (omega (arith, there, i'.h_lt, i'.v_lt)))

  -- Polling $4212 from any position of the frame reads the vertical blank, bit 7, as set after at
  -- most 4797 reads.
  pub vblank_wait :
      (s : Snes S)
      → InFrame s
      → (m : ℕ) × (m < 4797) × (test_bit (read_reg (polls m s) 0x4212).0 7 ≡ true)
  vblank_wait s i = elim (dec_lt (position s) 306900) [
    | yes before ↦
        let m = (306900 - position s + 63) / 64 - 1 in
        (m, omega arith, vblank_at m s i (omega arith))
    | no after ↦ elim (dec_lt (position s + 64) 357368) [
      | yes inside ↦ (0, omega arith, vblank_at 0 s i (omega arith))
      | no last ↦
          let m = (664268 - position s + 63) / 64 - 1 in
          (m, omega (arith, i.h_lt, i.v_lt), vblank_at m s i (omega (arith, i.h_lt, i.v_lt)))
    ]
  ]
