-- ===== src/Msu/Files.antt =====
-- The C library's files, as far as runner/src/snes/msu1.c reads them: a content and a position.
use snesrecomp.Base.{ℕ, ◌+◌, List, [], ◌∷◌, Option, none, some, length, take, drop}

pub record File : Type 0 where
  pub content : List ℕ
  pub position : ℕ

abbrev pub file : List ℕ → ℕ → File
file content position = record { content = content; position = position }

-- What lies behind the position.
unfoldable pub remaining : File → List ℕ
remaining f = drop f.position f.content

-- `fread(dst, 1, n, f)`: the bytes and the file behind them.
unfoldable pub fread : ℕ → File → List ℕ × File
fread n f = let bytes = take n (remaining f) in (bytes, file f.content (f.position + length bytes))

-- `fgetc`: `none` is EOF.
unfoldable pub fgetc : File → Option ℕ × File
fgetc f = elim (remaining f) [
  | [] ↦ (none, f)
  | x ∷ rest ↦ (some x, file f.content (f.position + 1))
]

-- `fseek(f, offset, SEEK_SET)` to an offset that is not negative succeeds, past the end too.
unfoldable pub fseek : ℕ → File → File
fseek offset f = file f.content offset

-- What is on disk: the content of "<base>-<track>.pcm" and of "<base>.msu".
pub record Disk : Type 0 where
  pub track_file : List ℕ → ℕ → Option (List ℕ)
  pub data_file : List ℕ → Option (List ℕ)
