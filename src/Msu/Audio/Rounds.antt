-- ===== src/Msu/Audio/Rounds.antt =====
-- The rounds of the loop of `msu_read_frames`.
use snesrecomp.Base.{
  lt→ltb, ge→ltb, not, ℕ, suc, ◌+◌, ◌-◌, ◌*◌, ◌/◌, ◌<◌, ◌≤◌, ◌≡◌, refl, ◌∙◌, arith, List, [], ◌++◌,
  Bool, true, false, ◌&&◌, some, if◌then◌else◌, length, take,
}
use snesrecomp.Msu.{Msu}
use snesrecomp.Msu.Files.{File, remaining, fread, fseek}
use snesrecomp.Msu.Audio.{frame_count, loop_offset, frames_loop, clear_rest}
use snesrecomp.Msu.Audio.Slices.{whole, slice_full, slice_short}
use mathlib.Core.List.{append-nil}

abbrev pub after : Msu → File → ℕ → Msu
after g f frames = record g { track = some (fread (4 * frames) f).1 }

-- A round that finds enough before the end of the track.
pub full_round :
    (seeks : ℕ → Bool) (fuel : ℕ) (g : Msu) (f : File) (frames filled m : ℕ) (looped : Bool)
    (out : List ℕ)
    → m ≡ frames - filled
    → filled < frames
    → m ≤ length (remaining f) / 4
    → frames_loop seeks (suc fuel) g f frames filled looped out
      ≡ some (frames, out ++ take (4 * m) (remaining f), after g f m)
unfolding frames_loop frame_count fread
full_round seeks fuel g f frames filled m looped out e0 h fits =
    let enough : frames - filled ≤ length (remaining f) / 4 = omega arith in
    rw e0 (
      let (count, slice) = slice_full (frames - filled) (remaining f) enough in
      let e : filled + frame_count (take (4 * (frames - filled)) (remaining f)) ≡ frames =
        omega (arith, count) in
      rw (lt→ltb _ _ h) (rw slice (rw e (rw (ge→ltb frames frames (omega arith)) refl))))

both {ℓ} :
    {A : Type ℓ} (a b : Bool) (r s : A)
    → (if not a then s else if b then r else s) ≡ (if a && b then r else s)
both true true r s = refl
both true false r s = refl
both false b r s = refl

-- A round that meets the end of the track.
pub short_round :
    (seeks : ℕ → Bool) (fuel : ℕ) (g : Msu) (f : File) (frames filled m : ℕ) (looped : Bool)
    (out : List ℕ)
    → m ≡ frames - filled
    → length (remaining f) / 4 < m
    → frames_loop seeks (suc fuel) g f frames filled looped out ≡ (
        let c = length (remaining f) / 4 in
        let read = (fread (4 * m) f).1 in
        let again = fseek (loop_offset g) read in
        if (g.repeat && not looped) && seeks (loop_offset g)
        then frames_loop seeks fuel
            (record g { track = some again })
            again
            frames
            (filled + c)
            true
            (out ++ whole (remaining f))
        else some (
          filled + c,
          out ++ whole (remaining f),
          record g { track = some read; playing = false },
        ))
unfolding frames_loop frame_count fread
short_round seeks fuel g f frames filled m looped out e0 fits =
    let short : length (remaining f) / 4 < frames - filled = omega arith in
    rw e0 (
      let (count, slice) = slice_short (frames - filled) (remaining f) short in
      let e : filled + frame_count (take (4 * (frames - filled)) (remaining f))
          ≡ filled + length (remaining f) / 4 =
        omega (arith, count) in
      rw (lt→ltb filled frames (omega arith)) (
        rw slice (
          rw e (
            rw (lt→ltb (filled + length (remaining f) / 4) frames (omega arith))
              (both (g.repeat && not looped) (seeks (loop_offset g)) _ _)))))

pub no_rest :
    (frames : ℕ) (xs : List ℕ) (g : Msu)
    → clear_rest frames (some (frames, xs, g)) ≡ some (frames, xs, g)
unfolding clear_rest
no_rest frames xs g =
    let e : 4 * (frames - frames) ≡ 0 = omega arith in rw e (rw (append-nil xs) refl)

pub and_true : (b : Bool) → (b && true) ≡ b
and_true true = refl
and_true false = refl

-- Whether the first round goes back to the loop point.
abbrev pub loops : (ℕ → Bool) → Msu → Bool
loops seeks g = g.repeat && seeks (loop_offset g)

pub first_round :
    (seeks : ℕ → Bool) (g : Msu) (f : File) (frames : ℕ)
    → length (remaining f) / 4 < frames
    → frames_loop seeks 2 g f frames 0 false [] ≡ (
        let c = length (remaining f) / 4 in
        let read = (fread (4 * frames) f).1 in
        let again = fseek (loop_offset g) read in
        if loops seeks g
        then frames_loop seeks 1
            (record g { track = some again })
            again
            frames
            c
            true
            (whole (remaining f))
        else some (c, whole (remaining f), record g { track = some read; playing = false }))
first_round seeks g f frames short =
    let e : 0 + length (remaining f) / 4 ≡ length (remaining f) / 4 = omega arith in
    short_round seeks 1 g f frames 0 frames false [] (omega arith) short
    ∙ rw (and_true g.repeat) (rw e refl)
