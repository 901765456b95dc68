-- ===== src/Tests/Msu.antt =====
-- The MSU-1 on a small disk.
use snesrecomp.Base.{
  ℕ, ◌≡◌, refl, arith, List, [], ◌∷◌, true, false, some, none, inr, if◌then◌else◌, ◌==◌, All,
  IsByte,
}
use snesrecomp.Msu.{Msu, msu1_read, msu1_write, msu1_enabled}
use snesrecomp.Msu.Files.{Disk, file, remaining, fseek}
use snesrecomp.Msu.Sound.{IsSound, msu1-IsSound}
use snesrecomp.Msu.Seek.{seek_to, read_many, padded, read_many-seek_to}
use snesrecomp.Msu.Audio.{msu_read_frames}
use snesrecomp.Msu.Audio.Stream.{stream, Delivers, msu_read_frames-Delivers}

abbrev track0 : List ℕ
track0 = 1 ∷ 2 ∷ 3 ∷ 4 ∷ 5 ∷ 6 ∷ 7 ∷ 8 ∷ 9 ∷ []

abbrev data0 : List ℕ
data0 = 10 ∷ 11 ∷ 12 ∷ 13 ∷ []

abbrev pub disk0 : Disk
disk0 = record {
  track_file = λ base n. if n == 1 then some track0 else none;
  data_file = λ base. some data0;
}

abbrev pub msu0 : Msu
msu0 = record {
  armed = true;
  auto_base = false;
  have_base = true;
  base = [];
  track = none;
  loop_point = 1;
  data_start = 0;
  playing = false;
  repeat = true;
  audio_error = false;
  volume = 255;
  track_lo = 1;
  data_channel = none;
  data_tried = false;
  seek0 = 0;
  seek1 = 0;
  seek2 = 0;
  seek3 = 0;
}

msu0-IsSound : IsSound msu0
msu0-IsSound = ((λ e. cc), (λ e. cc))

msu1-IsSound_example :
    IsSound (msu1_write disk0 msu0 0x2005 0) × IsSound (msu1_read disk0 msu0 0x2005).1
msu1-IsSound_example = msu1-IsSound disk0 msu0 0x2005 0 msu0-IsSound

data0-IsByte : All IsByte data0
data0-IsByte = (omega arith, (omega arith, (omega arith, (omega arith, tt))))

read_many-seek_to_example : read_many disk0 (seek_to disk0 msu0 2 0 0 0) 3 ≡ 12 ∷ 13 ∷ 0 ∷ []
unfolding padded msu1_enabled
read_many-seek_to_example =
    read_many-seek_to disk0 msu0 data0 2 0 0 0 3 refl (inr (refl, refl, refl)) data0-IsByte

-- The cursor is at the second frame, and so is the loop point.
msu_read_frames-Delivers_example :
    Delivers msu0 3
      (stream (λ offset. true) msu0 (file track0 4))
      (msu_read_frames (λ offset. true) msu0 (file track0 4) 3)
msu_read_frames-Delivers_example = msu_read_frames-Delivers (λ offset. true) msu0 (file track0 4) 3

samples_check : stream (λ offset. true) msu0 (file track0 4) ≡ 5 ∷ 6 ∷ 7 ∷ 8 ∷ 5 ∷ 6 ∷ 7 ∷ 8 ∷ []
unfolding remaining fseek
samples_check = refl
