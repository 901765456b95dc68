-- ===== src/Msu.antt =====
-- runner/src/snes/msu1.c: the MSU-1 registers. The lock that the functions take is not modelled:
-- each function is one step.
pub mod Files
pub mod Sound
pub mod Seek
pub mod Audio
use snesrecomp.Base.{ℕ, zero, suc, ◌+◌, ◌*◌, ◌%◌, ◌^◌, Bool, true, false, not, ◌&&◌}
use snesrecomp.Base.{
  List, [], ◌∷◌, Option, none, some, if◌then◌else◌, ◌==◌, u8, word, test_bit, length, get_or,
}
use snesrecomp.Msu.Files.{File, file, fread, fgetc, fseek, Disk}

pub record Msu : Type 0 where
  pub armed : Bool
  pub auto_base : Bool
  pub have_base : Bool
  pub base : List ℕ
  pub track : Option File
  pub loop_point : ℕ
  pub data_start : ℕ
  pub playing : Bool
  pub repeat : Bool
  pub audio_error : Bool
  pub volume : ℕ
  pub track_lo : ℕ
  pub data_channel : Option File
  pub data_tried : Bool
  pub seek0 : ℕ
  pub seek1 : ℕ
  pub seek2 : ℕ
  pub seek3 : ℕ

unfoldable pub msu1_enabled : Msu → Bool
msu1_enabled g = g.armed && g.have_base

abbrev pub is_present {ℓ} : {A : Type ℓ} → Option A → Bool
is_present none = false
is_present (some a) = true

pub msu_close_track : Msu → Msu
msu_close_track g = record g { track = none }

-- "MSU1".
pub has_header : List ℕ → Bool
has_header header =
    length header == 8
    && get_or header 0 0 == 0x4d
    && get_or header 1 0 == 0x53
    && get_or header 2 0 == 0x55
    && get_or header 3 0 == 0x31

-- `a | (b << 8) | (c << 16) | (d << 24)` of four bytes.
abbrev pub word32 : ℕ → ℕ → ℕ → ℕ → ℕ
word32 a b c d = a + b * 2 ^ 8 + c * 2 ^ 16 + d * 2 ^ 24

pub start_track : Msu → File → Msu
start_track g f =
    let read = fread 8 f in
    let header = read.0 in
    if has_header header
    then (record g {
      loop_point =
          word32 (get_or header 4 0) (get_or header 5 0) (get_or header 6 0) (get_or header 7 0);
      data_start = 8;
      track = some read.1;
    })
    else (record g { loop_point = 0; data_start = 0; track = some (fseek 0 read.1) })

pub msu_load_track : Disk → Msu → ℕ → Msu
msu_load_track disk g number =
    let g' = record (msu_close_track g) { playing = false; audio_error = false } in
    elim (disk.track_file g.base number) [
      | none ↦ record g' { audio_error = true }
      | some content ↦ start_track g' (file content 0)
    ]

abbrev pub status_bit : Bool → ℕ → ℕ
status_bit true bit = bit
status_bit false bit = 0

-- $2000: the flags and the revision, 1, have bits of their own.
pub msu1_status : Msu → ℕ
msu1_status g =
    status_bit g.repeat 0x20 + status_bit g.playing 0x10 + status_bit g.audio_error 0x08 + 1

-- The data file is opened once, at the first access that needs it.
pub open_data : Disk → Msu → Msu
open_data disk g =
    if not (is_present g.data_channel) && not g.data_tried
    then (record g {
      data_tried = true;
      data_channel = elim (disk.data_file g.base) [
        | none ↦ none
        | some content ↦ some (file content 0)
      ];
    })
    else g

-- `c == EOF ? 0 : c`.
abbrev pub or_zero : Option ℕ → ℕ
or_zero none = 0
or_zero (some c) = u8 c

pub read_data : Msu → ℕ × Msu
read_data g = elim g.data_channel [
  | none ↦ (0, g)
  | some f ↦ let read = fgetc f in (or_zero read.0, record g { data_channel = some read.1 })
]

-- "S-MSU1" at 2 to 7.
pub msu_id : ℕ → ℕ
msu_id i = get_or (0x53 ∷ 0x2d ∷ 0x4d ∷ 0x53 ∷ 0x55 ∷ 0x31 ∷ []) i 0

-- The `switch` of `msu1_read` on `reg & 7`.
pub load_register : Disk → Msu → ℕ → ℕ × Msu
load_register disk g zero = (msu1_status g, g)
load_register disk g (suc zero) = read_data (open_data disk g)
load_register disk g (suc (suc i)) = (msu_id i, g)

pub msu1_read : Disk → Msu → ℕ → ℕ × Msu
msu1_read disk g reg = if msu1_enabled g then load_register disk g (reg % 8) else (0, g)

-- `fseek(g.data, (long)off, SEEK_SET)`, where `long` has 64 bits and the cast keeps the offset; `fseek`
-- is taken to succeed.
pub seek_data : Msu → ℕ → Msu
seek_data g offset = elim g.data_channel [
  | none ↦ g
  | some f ↦ record g { data_channel = some (fseek offset f) }
]

pub control : Msu → ℕ → Msu
control g val = record g {
  repeat = test_bit val 1;
  playing = if test_bit val 0 then is_present g.track && not g.audio_error else false;
}

-- The `switch` of `msu1_write` on `reg & 7`.
pub store_register : Disk → Msu → ℕ → ℕ → Msu
store_register disk g zero val = record g { seek0 = val }
store_register disk g (suc zero) val = record g { seek1 = val }
store_register disk g (suc (suc zero)) val = record g { seek2 = val }
store_register disk g (suc (suc (suc zero))) val =
    seek_data (open_data disk (record g { seek3 = val })) (word32 g.seek0 g.seek1 g.seek2 val)
store_register disk g (suc (suc (suc (suc zero)))) val = record g { track_lo = val }
store_register disk g (suc (suc (suc (suc (suc zero))))) val =
    msu_load_track disk g (word g.track_lo val)
store_register disk g (suc (suc (suc (suc (suc (suc zero)))))) val = record g { volume = val }
store_register disk g (suc (suc (suc (suc (suc (suc (suc i))))))) val = control g val

pub msu1_write : Disk → Msu → ℕ → ℕ → Msu
msu1_write disk g reg val = if msu1_enabled g then store_register disk g (reg % 8) val else g
