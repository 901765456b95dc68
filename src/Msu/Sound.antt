-- ===== src/Msu/Sound.antt =====
-- What the MSU-1 keeps true of its audio channel.
use snesrecomp.Base.{
  ℕ, zero, suc, ◌%◌, ◌≡◌, refl, Bool, true, false, not, ◌&&◌, if◌then◌else◌, test_bit, Option-cases,
  inl, inr, Bool-cases, word,
}
use snesrecomp.Msu.{
  Msu, is_present, has_header, start_track, msu_close_track, msu_load_track, open_data, read_data,
  load_register, msu1_read, msu1_enabled, seek_data, control, store_register, msu1_write,
}
use snesrecomp.Msu.Files.{File, file, fread, Disk}

-- A track plays only if it is there and was found, and a track that was not found is not there.
abbrev pub IsSound : Msu → Type 0
IsSound g =
    (g.playing ≡ true → (is_present g.track ≡ true) × (g.audio_error ≡ false))
    × (g.audio_error ≡ true → is_present g.track ≡ false)

open_data-IsSound : (disk : Disk) (g : Msu) → IsSound g → IsSound (open_data disk g)
unfolding open_data
open_data-IsSound disk g h =
    elim (Bool-cases (not (is_present g.data_channel) && not g.data_tried)) [
      | inl e ↦ rw e h
      | inr e ↦ rw e h
    ]

seek_data-IsSound : (g : Msu) (offset : ℕ) → IsSound g → IsSound (seek_data g offset)
unfolding seek_data
seek_data-IsSound g offset h = elim (Option-cases g.data_channel) [
  | inl e ↦ rw e h
  | inr (f, e) ↦ rw e h
]

start_track-IsSound :
    (g : Msu) (f : File) → g.playing ≡ false → g.audio_error ≡ false → IsSound (start_track g f)
unfolding start_track
start_track-IsSound g f p q = elim (Bool-cases (has_header (fread 8 f).0)) [
  | inl e ↦ rw e ((λ r. cc), (λ r. cc))
  | inr e ↦ rw e ((λ r. cc), (λ r. cc))
]

msu_load_track-IsSound : (disk : Disk) (g : Msu) (n : ℕ) → IsSound (msu_load_track disk g n)
unfolding msu_load_track msu_close_track
msu_load_track-IsSound disk g n = elim (Option-cases (disk.track_file g.base n)) [
  | inl e ↦ rw (e, msu_load_track) ((λ r. cc), (λ r. refl))
  | inr (content, e) ↦ rw (e, msu_load_track) (start_track-IsSound _ (file content 0) refl refl)
]

plays_if : (t p e : Bool) → (if t then p && not e else false) ≡ true → (p ≡ true) × (e ≡ false)
plays_if true true false h = (refl, refl)
plays_if true true true h = cc
plays_if true false e h = cc
plays_if false p e h = cc

control-IsSound : (g : Msu) (val : ℕ) → IsSound g → IsSound (control g val)
unfolding control
control-IsSound g val h = (plays_if (test_bit val 0) (is_present g.track) g.audio_error, h.1)

store_register-IsSound :
    (disk : Disk) (g : Msu) (i val : ℕ) → IsSound g → IsSound (store_register disk g i val)
unfolding store_register
store_register-IsSound disk g zero val h = h
store_register-IsSound disk g (suc zero) val h = h
store_register-IsSound disk g (suc (suc zero)) val h = h
store_register-IsSound disk g (suc (suc (suc zero))) val h =
    seek_data-IsSound _ _ (open_data-IsSound disk (record g { seek3 = val }) h)
store_register-IsSound disk g (suc (suc (suc (suc zero)))) val h = h
store_register-IsSound disk g (suc (suc (suc (suc (suc zero))))) val h =
    msu_load_track-IsSound disk g (word g.track_lo val)
store_register-IsSound disk g (suc (suc (suc (suc (suc (suc zero)))))) val h = h
store_register-IsSound disk g (suc (suc (suc (suc (suc (suc (suc i))))))) val h =
    control-IsSound g val h

read_data-IsSound : (g : Msu) → IsSound g → IsSound (read_data g).1
unfolding read_data
read_data-IsSound g h = elim (Option-cases g.data_channel) [ inl e ↦ rw e h | inr (f, e) ↦ rw e h ]

load_register-IsSound :
    (disk : Disk) (g : Msu) (i : ℕ) → IsSound g → IsSound (load_register disk g i).1
unfolding load_register
load_register-IsSound disk g zero h = h
load_register-IsSound disk g (suc zero) h = read_data-IsSound _ (open_data-IsSound disk g h)
load_register-IsSound disk g (suc (suc i)) h = h

-- Every register access, a write of any value or a read, keeps this: a track that plays is there
-- and its error flag is clear, and if the error flag is set no track is there.
pub msu1-IsSound :
    (disk : Disk) (g : Msu) (reg val : ℕ)
    → IsSound g
    → IsSound (msu1_write disk g reg val) × IsSound (msu1_read disk g reg).1
unfolding msu1_write msu1_read
msu1-IsSound disk g reg val h = elim (Bool-cases (msu1_enabled g)) [
  | inl e ↦
      rw e (store_register-IsSound disk g (reg % 8) val h, load_register-IsSound disk g (reg % 8) h)
  | inr e ↦ rw e (h, h)
]
