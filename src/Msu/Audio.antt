-- ===== src/Msu/Audio.antt =====
-- `msu_read_frames` of runner/src/snes/msu1.c. `dst` up to `filled` is the list of the bytes written;
-- a partial frame that `fread` leaves behind it is overwritten later.
mod Slices
mod Rounds
pub mod Stream
use snesrecomp.Base.{ℕ, zero, suc, ◌+◌, ◌-◌, ◌*◌, ◌/◌, Bool, true, false, not, ◌&&◌}
use snesrecomp.Base.{
  List, [], ◌++◌, Option, none, some, if◌then◌else◌, ltb, length, take, replicate,
}
use snesrecomp.Msu.{Msu}
use snesrecomp.Msu.Files.{File, fread, fseek}

-- The whole frames of four bytes in a list of bytes.
pub frame_count : List ℕ → ℕ
frame_count bytes = length bytes / 4

abbrev pub loop_offset : Msu → ℕ
loop_offset g = g.data_start + g.loop_point * 4

-- `seeks offset` is whether `fseek` there succeeds. `none`: out of fuel.
pub frames_loop : (ℕ → Bool) → ℕ → Msu → File → ℕ → ℕ → Bool → List ℕ → Option (ℕ × List ℕ × Msu)
frames_loop seeks zero g f frames filled looped out = none
frames_loop seeks (suc fuel) g f frames filled looped out =
    let read = fread (4 * (frames - filled)) f in
    let n = frame_count read.0 in
    let out' = out ++ take (4 * n) read.0 in
    let g' = record g { track = some read.1 } in
    let stop = some (filled + n, out', record g' { playing = false }) in
    let again = fseek (loop_offset g) read.1 in
    let rest =
      frames_loop seeks fuel (record g { track = some again }) again frames (filled + n) true
        out' in
    if not (ltb filled frames)
    then some (filled, out, g)
    else if not (ltb (filled + n) frames)
    then some (filled + n, out', g')
    else if not (g.repeat && not looped)
    then stop
    else if seeks (loop_offset g)
    then rest
    else stop

-- `memset` of what is left.
pub clear_rest : ℕ → Option (ℕ × List ℕ × Msu) → Option (ℕ × List ℕ × Msu)
clear_rest frames none = none
clear_rest frames (some (filled, out, g)) =
    some (filled, out ++ replicate (4 * (frames - filled)) 0, g)

-- The count, the samples with the remainder zeroed, and the state. The loop runs twice at most.
pub msu_read_frames : (ℕ → Bool) → Msu → File → ℕ → Option (ℕ × List ℕ × Msu)
msu_read_frames seeks g f frames = clear_rest frames (frames_loop seeks 2 g f frames 0 false [])
