-- ===== src/Infra/Snapshots.antt =====
-- The ring of function-boundary snapshots of runner/src/common_cpu_infra.c: the capture of
-- `RecompStackPush` and `recomp_snap_lookup`. The count of calls is an int: `overflowed`
-- says when a call has been counted that it cannot hold.
use snesrecomp.Base.{
  Bool, ◌||◌, leb, ℕ, zero, suc, ◌+◌, ◌-◌, ◌%◌, ◌^◌, false, Option, none, some, ltb, ◌==◌, ◌!=◌,
  if◌then◌else◌, Memory,
}

pub record Snap : Type 0 where
  pub call_idx : ℕ
  pub frame : ℕ
  pub wram_slice : Memory

abbrev pub snap : ℕ → ℕ → Memory → Snap
snap call_idx frame wram_slice = record {
  call_idx = call_idx;
  frame = frame;
  wram_slice = wram_slice;
}

-- `overflowed` says that the count, an int, has been added to at 2 ^ 31 - 1.
pub record Snapshots : Type 0 where
  pub count : ℕ
  pub overflowed : Bool
  pub ring : ℕ → Snap

-- The first 8 KB of WRAM.
abbrev pub slice_of : Memory → Memory
slice_of ram i = if ltb i 0x2000 then ram i else 0

-- The branch of `RecompStackPush` for a match.
pub capture : ℕ → Memory → Snapshots → Snapshots
capture frame_counter ram s =
    let count' = s.count + 1 in
    let taken = snap count' frame_counter (slice_of ram) in
    record {
      count = count';
      overflowed = s.overflowed || leb (2 ^ 31 - 1) s.count;
      ring = λ i. if i == (count' - 1) % 256 then taken else s.ring i;
    }

pub snap_lookup : Snapshots → ℕ → Option Snap
snap_lookup s call_idx =
    let e = s.ring ((call_idx - 1) % 256) in
    if ltb call_idx 1 then none else if e.call_idx != call_idx then none else some e

abbrev pub empty : Snapshots
empty = record { count = 0; overflowed = false; ring = λ i. snap 0 0 (λ j. 0) }

-- `n` captures; `frames i` and `rams i` are the frame counter and the WRAM at the `i`-th.
pub captures : (ℕ → ℕ) → (ℕ → Memory) → ℕ → Snapshots
captures frames rams zero = empty
captures frames rams (suc n) = capture (frames (suc n)) (rams (suc n)) (captures frames rams n)

abbrev pub snap_at : (ℕ → ℕ) → (ℕ → Memory) → ℕ → Snap
snap_at frames rams i = snap i (frames i) (slice_of (rams i))
