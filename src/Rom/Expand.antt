-- ===== src/Rom/Expand.antt =====
-- The second half of `snes_loadRom`, runner/src/snes/snes_other.c: the size that the image grows to
-- and the loop that fills it. The buffer is the list of the bytes written so far, and `length` its
-- length.
pub mod Mirror
pub mod Loop
use snesrecomp.Base.{
  ℕ, zero, suc, ◌-◌, ◌*◌, List, ◌++◌, Option, some, none, bit_and, length, take, drop, leb, ◌==◌,
  ◌!=◌, if◌then◌else◌,
}

-- `while(true) { if(length <= newLength) break; newLength *= 2; }`
unfoldable pub new_length : ℕ → ℕ → ℕ → Option ℕ
new_length zero len size = if leb len size then some size else none
new_length (suc fuel) len size =
    let rest = new_length fuel len (size * 2) in if leb len size then some size else rest

-- `memcpy(newData + length, newData + length - test, test); length += test;`
unfoldable pub widen : List ℕ → ℕ → List ℕ
widen bytes test = bytes ++ take test (drop (length bytes - test) bytes)

-- One turn of the loop.
unfoldable pub mirror_step : ℕ → List ℕ → List ℕ
unfolding widen
mirror_step test bytes = if bit_and (length bytes) test != 0 then widen bytes test else bytes

-- `while(length != newLength)`
unfoldable pub mirror_loop : ℕ → ℕ → ℕ → List ℕ → Option (List ℕ)
mirror_loop zero size test bytes = if length bytes == size then some bytes else none
mirror_loop (suc fuel) size test bytes =
    let rest = mirror_loop fuel size (test * 2) (mirror_step test bytes) in
    if length bytes == size then some bytes else rest

-- Both loops; `newLength` and `test` are `int`, so neither doubles more often than 31 times.
unfoldable pub expand : List ℕ → Option (List ℕ)
expand bytes = elim (new_length 15 (length bytes) 0x8000) [
  | none ↦ none
  | some size ↦ mirror_loop 31 size 1 bytes
]
