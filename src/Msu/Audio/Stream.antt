-- ===== src/Msu/Audio/Stream.antt =====
-- The samples that `msu_read_frames` gives are the track from its cursor, then once from the loop
-- point when it repeats, then silence.
use snesrecomp.Base.{
  and_false, le→leb, gt→leb, dec_le, Bool-cases, inl, inr, ℕ, zero, suc, ◌+◌, ◌-◌, ◌*◌, ◌/◌, ◌<◌,
  ◌≤◌, ◌≡◌, refl, ap, sym, ◌∙◌, arith, List, [], ◌++◌, Bool, true, false, ◌&&◌, Option, some,
  if◌then◌else◌, length, length-append, take, replicate, leb,
}
use snesrecomp.Msu.{Msu}
use snesrecomp.Msu.Files.{File, remaining, fread, fseek}
use snesrecomp.Msu.Audio.{loop_offset, frames_loop, clear_rest, msu_read_frames}
use snesrecomp.Msu.Audio.Slices.{whole, length-whole, full_take, pad_take, twice_take}
use Prim.Native.Nat.{min}
use mathlib.Core.List.{append-nil}
use snesrecomp.Msu.Audio.Rounds.{after, loops, full_round, short_round, no_rest, first_round}

-- All that the track has to give.
abbrev pub stream : (ℕ → Bool) → Msu → File → List ℕ
stream seeks g f =
    whole (remaining f)
    ++ (if g.repeat && seeks (loop_offset g)
        then whole (remaining (fseek (loop_offset g) f))
        else [])

-- The three parts of a result, and what they are of a stream of samples.
abbrev pub Delivers : Msu → ℕ → List ℕ → Option (ℕ × List ℕ × Msu) → Type 0
Delivers g frames samples result =
    (filled : ℕ) × (out : List ℕ) × (g' : Msu) × (result ≡ some (filled, out, g'))
    × (filled ≡ min frames (length samples / 4))
    × (out ≡ take (4 * frames) (samples ++ replicate (4 * frames) 0))
    × (g'.playing ≡ (g.playing && leb frames (length samples / 4)))

goes_on : (b : Bool) (a n : ℕ) → a ≤ n → b ≡ (b && leb a n)
goes_on true a n h = rw (le→leb a n h) refl
goes_on false a n h = refl

stops : (b : Bool) (a n : ℕ) → n < a → false ≡ (b && leb a n)
stops true a n h = rw (gt→leb a n h) refl
stops false a n h = refl

none_wanted :
    (seeks : ℕ → Bool) (g : Msu) (f : File)
    → Delivers g 0 (stream seeks g f) (msu_read_frames seeks g f 0)
unfolding msu_read_frames clear_rest frames_loop
none_wanted seeks g f = (0, [], g, refl, omega arith, refl, goes_on g.playing 0 _ (omega arith))

-- All comes from the first round.
first_full :
    (seeks : ℕ → Bool) (g : Msu) (f : File) (frames : ℕ) (more : List ℕ)
    → 0 < frames
    → frames ≤ length (remaining f) / 4
    → Delivers g frames (whole (remaining f) ++ more) (msu_read_frames seeks g f frames)
unfolding msu_read_frames clear_rest
first_full seeks g f frames more pos enough =
    let xs = remaining f in
    let total : frames ≤ length (whole xs ++ more) / 4 =
      omega (arith, length-append (whole xs) more, length-whole xs) in
    (
      frames,
      take (4 * frames) xs,
      after g f frames,
      ap (clear_rest frames)
            (full_round seeks 1 g f frames 0 frames false [] (omega arith) pos enough)
          ∙ no_rest frames (take (4 * frames) xs) (after g f frames),
      omega (arith, total),
      sym (full_take frames xs more (replicate (4 * frames) 0) enough),
      goes_on g.playing frames _ total,
    )

-- The track ends and does not repeat.
first_short :
    (seeks : ℕ → Bool) (g : Msu) (f : File) (frames : ℕ)
    → length (remaining f) / 4 < frames
    → loops seeks g ≡ false
    → Delivers g frames (whole (remaining f) ++ []) (msu_read_frames seeks g f frames)
unfolding msu_read_frames clear_rest
first_short seeks g f frames short once =
    let xs = remaining f in
    let c = length xs / 4 in
    let total = length-whole xs in
    rw (append-nil (whole xs)) (
      c,
      whole xs ++ replicate (4 * (frames - c)) 0,
      record g { track = some (fread (4 * frames) f).1; playing = false },
      ap (clear_rest frames) (first_round seeks g f frames short) ∙ rw once refl,
      omega (arith, total),
      sym (pad_take frames c (whole xs) total (omega arith)),
      stops g.playing frames _ (omega (arith, total)),
    )

-- It ends, and the loop has enough.
second_full :
    (seeks : ℕ → Bool) (g : Msu) (f : File) (frames : ℕ)
    → length (remaining f) / 4 < frames
    → loops seeks g ≡ true
    → frames - length (remaining f) / 4 ≤ length (remaining (fseek (loop_offset g) f)) / 4
    → Delivers g frames
        (whole (remaining f) ++ whole (remaining (fseek (loop_offset g) f)))
        (msu_read_frames seeks g f frames)
unfolding msu_read_frames fread fseek
second_full seeks g f frames short again enough =
    let xs = remaining f in
    let at = fseek (loop_offset g) f in
    let ys = remaining at in
    let c = length xs / 4 in
    let total : frames ≤ length (whole xs ++ whole ys) / 4 =
      omega (arith, length-append (whole xs) (whole ys), length-whole xs, length-whole ys) in
    let g1 = record g { track = some at } in
    (
      frames,
      whole xs ++ take (4 * (frames - c)) ys,
      after g1 at (frames - c),
      ap (clear_rest frames) (
            first_round seeks g f frames short
            ∙ rw again
                (full_round seeks 0 g1 at frames c (frames - c) true (whole xs) refl short enough))
          ∙ no_rest frames (whole xs ++ take (4 * (frames - c)) ys) (after g1 at (frames - c)),
      omega (arith, total),
      sym (twice_take frames xs ys (replicate (4 * frames) 0) (omega arith) enough),
      goes_on g.playing frames _ total,
    )

-- It ends, and so does the loop.
second_short :
    (seeks : ℕ → Bool) (g : Msu) (f : File) (frames : ℕ)
    → length (remaining f) / 4 < frames
    → loops seeks g ≡ true
    → length (remaining (fseek (loop_offset g) f)) / 4 < frames - length (remaining f) / 4
    → Delivers g frames
        (whole (remaining f) ++ whole (remaining (fseek (loop_offset g) f)))
        (msu_read_frames seeks g f frames)
unfolding msu_read_frames clear_rest fread fseek
second_short seeks g f frames short again short2 =
    let xs = remaining f in
    let at = fseek (loop_offset g) f in
    let ys = remaining at in
    let c = length xs / 4 in
    let d = length ys / 4 in
    let total : length (whole xs ++ whole ys) ≡ 4 * (c + d) =
      omega (arith, length-append (whole xs) (whole ys), length-whole xs, length-whole ys) in
    let g1 = record g { track = some at } in
    let g2 = record g1 { track = some (fread (4 * (frames - c)) at).1; playing = false } in
    (
      c + d,
      (whole xs ++ whole ys) ++ replicate (4 * (frames - (c + d))) 0,
      g2,
      ap (clear_rest frames) {y = some (c + d, whole xs ++ whole ys, g2)} (
          first_round seeks g f frames short
          ∙ rw again (
              short_round seeks 0 g1 at frames c (frames - c) true (whole xs) refl short2
              ∙ rw (and_false g.repeat) refl)),
      omega (arith, total),
      sym (pad_take frames (c + d) (whole xs ++ whole ys) total (omega arith)),
      stops g.playing frames _ (omega (arith, total)),
    )

-- With fuel for two rounds the loop ends, whatever the track and the count: the frames delivered are
-- those of `stream` (the whole frames from the cursor, then once those from the loop point if the
-- track repeats and can be positioned), as many as are asked for, and the rest is silence. A track
-- that plays goes on exactly if there are enough.
pub msu_read_frames-Delivers :
    (seeks : ℕ → Bool) (g : Msu) (f : File) (frames : ℕ)
    → Delivers g frames (stream seeks g f) (msu_read_frames seeks g f frames)
msu_read_frames-Delivers seeks g f zero = none_wanted seeks g f
msu_read_frames-Delivers seeks g f (suc n) = elim (dec_le (suc n) (length (remaining f) / 4)) [
  | yes enough ↦ first_full seeks g f (suc n) _ (omega arith) enough
  | no short ↦ elim (Bool-cases (loops seeks g)) [
    | inr once ↦ rw once (first_short seeks g f (suc n) (omega arith) once)
    | inl again ↦
        elim (dec_le (suc n - length (remaining f) / 4)
          (length (remaining (fseek (loop_offset g) f)) / 4)) [
            | yes enough ↦ rw again (second_full seeks g f (suc n) (omega arith) again enough)
            | no short2 ↦
                rw again (second_short seeks g f (suc n) (omega arith) again (omega arith))
          ]
  ]
]
