-- ===== src/Msu/Seek.antt =====
-- The data channel: what a program reads after it has set the position.
use snesrecomp.Base.{
  ◌⊎◌, ℕ, zero, suc, ◌+◌, ◌%◌, ◌≡◌, refl, ap, ◌∙◌, arith, true, false, none, some, inl, inr, List,
  [], ◌∷◌, u8, All, IsByte, drop,
}
use snesrecomp.Msu.{
  Msu, open_data, read_data, load_register, msu1_read, msu1_enabled, seek_data, store_register,
  msu1_write, word32,
}
use snesrecomp.Msu.Files.{file, fgetc, fseek, remaining, Disk}

-- Stores to $2000-$2003.
pub seek_to : Disk → Msu → ℕ → ℕ → ℕ → ℕ → Msu
seek_to disk g a b c d =
    msu1_write disk
      (msu1_write disk (msu1_write disk (msu1_write disk g 0x2000 a) 0x2001 b) 0x2002 c) 0x2003 d

-- Loads from $2001, one after the other.
pub read_many : Disk → Msu → ℕ → List ℕ
read_many disk g zero = []
read_many disk g (suc n) = let read = msu1_read disk g 0x2001 in read.0 ∷ read_many disk read.1 n

-- The data channel stands at `position` of `content`.
abbrev pub IsAt : Msu → List ℕ → ℕ → Type 0
IsAt g content position = (msu1_enabled g ≡ true) × (g.data_channel ≡ some (file content position))

read_data-cons :
    (disk : Disk) (g : Msu) (content : List ℕ) (position x : ℕ) (rest : List ℕ)
    → IsAt g content position
    → drop position content ≡ x ∷ rest
    → msu1_read disk g 0x2001
      ≡ (u8 x, record g { data_channel = some (file content (position + 1)) })
unfolding msu1_read load_register read_data open_data fgetc remaining
read_data-cons disk g content position x rest (e, at) d = rw (e, at) (rw d refl)

read_data-nil :
    (disk : Disk) (g : Msu) (content : List ℕ) (position : ℕ)
    → IsAt g content position
    → drop position content ≡ []
    → msu1_read disk g 0x2001 ≡ (0, record g { data_channel = some (file content position) })
unfolding msu1_read load_register read_data open_data fgetc remaining
read_data-nil disk g content position (e, at) d = rw (e, at) (rw d refl)

-- The first `n` of a list, and zeros past its end.
unfoldable pub padded : ℕ → List ℕ → List ℕ
padded zero xs = []
padded (suc n) [] = 0 ∷ padded n []
padded (suc n) (x ∷ xs) = x ∷ padded n xs

drop-next : (xs : List ℕ) (i x : ℕ) (rest : List ℕ) → drop i xs ≡ x ∷ rest → drop (i + 1) xs ≡ rest
drop-next [] zero x rest e = cc
drop-next [] (suc i) x rest e = cc
drop-next (y ∷ xs) zero x rest e = cc
drop-next (y ∷ xs) (suc i) x rest e =
    ap (λ t. drop t (y ∷ xs)) {x = suc i + 1} {y = suc (i + 1)} (omega arith)
    ∙ drop-next xs i x rest e

drop-All : (xs : List ℕ) (i : ℕ) → All IsByte xs → All IsByte (drop i xs)
drop-All xs zero h = h
drop-All [] (suc i) h = h
drop-All (x ∷ xs) (suc i) h = drop-All xs i h.1

List-cases : (xs : List ℕ) → (xs ≡ []) ⊎ ((x : ℕ) × (rest : List ℕ) × (xs ≡ x ∷ rest))
List-cases [] = inl refl
List-cases (x ∷ rest) = inr (x, rest, refl)

read_many-padded :
    (disk : Disk) (g : Msu) (content : List ℕ) (position n : ℕ)
    → All IsByte content
    → IsAt g content position
    → read_many disk g n ≡ padded n (drop position content)
unfolding read_many padded msu1_enabled
read_many-padded disk g content position zero h at = refl
read_many-padded disk g content position (suc n) h at = elim (List-cases (drop position content)) [
  | inl d ↦ rw (read_data-nil disk g content position at d) (
      rw d (
        ap (λ t. 0 ∷ t)
          (read_many-padded disk (record g { data_channel = some (file content position) }) content
              position n h (at.0, refl)
            ∙ ap (padded n) d)))
  | inr (x, rest, d) ↦
      let bytes = rw d at (drop-All content position h) in
      let small : u8 x ≡ x = omega (arith, bytes.0) in
      rw (read_data-cons disk g content position x rest at d) (
        rw d (
          rw small (
            ap (λ t. x ∷ t)
              (read_many-padded disk
                  (record g { data_channel = some (file content (position + 1)) }) content
                  (position + 1) n h (at.0, refl)
                ∙ ap (padded n) (drop-next content position x rest d)))))
]

-- The channel is open on `content`, or opens on it at the next access.
abbrev pub HasData : Disk → Msu → List ℕ → Type 0
HasData disk g content =
    ((position : ℕ) × (g.data_channel ≡ some (file content position)))
    ⊎ ((g.data_channel ≡ none) × (g.data_tried ≡ false) × (disk.data_file g.base ≡ some content))

opened :
    (disk : Disk) (g : Msu) (content : List ℕ) (offset : ℕ)
    → msu1_enabled g ≡ true
    → HasData disk g content
    → IsAt (seek_data (open_data disk g) offset) content offset
unfolding seek_data open_data msu1_enabled fseek
opened disk g content offset on (inl (position, e)) = rw e (on, refl)
opened disk g content offset on (inr (e, fresh, found)) = rw (e, fresh) (rw found (on, refl))

write_enabled :
    (disk : Disk) (g : Msu) (reg val : ℕ)
    → msu1_enabled g ≡ true
    → msu1_write disk g reg val ≡ store_register disk g (reg % 8) val
unfolding msu1_write
write_enabled disk g reg val on = rw on refl

seek_to-seek_data :
    (disk : Disk) (g : Msu) (a b c d : ℕ)
    → msu1_enabled g ≡ true
    → seek_to disk g a b c d
      ≡ seek_data
          (open_data disk (record g { seek0 = a; seek1 = b; seek2 = c; seek3 = d }))
          (word32 a b c d)
unfolding seek_to store_register msu1_enabled
seek_to-seek_data disk g a b c d on =
    let g1 = record g { seek0 = a } in
    let g2 = record g1 { seek1 = b } in
    let g3 = record g2 { seek2 = c } in
    ap (λ t. msu1_write disk (msu1_write disk (msu1_write disk t 0x2001 b) 0x2002 c) 0x2003 d)
      (write_enabled disk g 0x2000 a on)
    ∙ ap (λ t. msu1_write disk (msu1_write disk t 0x2002 c) 0x2003 d)
        (write_enabled disk g1 0x2001 b on)
    ∙ ap (λ t. msu1_write disk t 0x2003 d) (write_enabled disk g2 0x2002 c on)
    ∙ write_enabled disk g3 0x2003 d on

seek_to-IsAt :
    (disk : Disk) (g : Msu) (content : List ℕ) (a b c d : ℕ)
    → msu1_enabled g ≡ true
    → HasData disk g content
    → IsAt (seek_to disk g a b c d) content (word32 a b c d)
unfolding msu1_enabled
seek_to-IsAt disk g content a b c d on has = rw (seek_to-seek_data disk g a b c d on) (
    opened disk (record g { seek0 = a; seek1 = b; seek2 = c; seek3 = d }) content (word32 a b c d)
      on has)

-- With the MSU-1 enabled, a data file of bytes there and a `long` of 64 bits: after the four bytes of an offset are stored to
-- $2000-$2003, lowest first, `n` loads from $2001 give the `n` bytes of the file from that offset on,
-- and zeros past its end.
pub read_many-seek_to :
    (disk : Disk) (g : Msu) (content : List ℕ) (a b c d n : ℕ)
    → msu1_enabled g ≡ true
    → HasData disk g content
    → All IsByte content
    → read_many disk (seek_to disk g a b c d) n ≡ padded n (drop (word32 a b c d) content)
read_many-seek_to disk g content a b c d n on has h =
    read_many-padded disk (seek_to disk g a b c d) content (word32 a b c d) n h
      (seek_to-IsAt disk g content a b c d on has)
