-- ===== src/Patch.antt =====
-- The BPS patches of runner/src/util.c. `dst` below `outputOffset` is the list of what has been
-- written, and a cursor into the patch is the list of what is left of it.
pub mod Numbers
pub mod Encode
mod Copies
mod Rounds
pub mod Apply
use snesrecomp.Base.{ℕ, zero, suc, ◌+◌, ◌-◌, ◌*◌, ◌/◌, ◌%◌, ◌^◌, bit_and, List, [], ◌∷◌, ◌++◌}
use snesrecomp.Base.{true, false, Option, none, some, if◌then◌else◌, ltb, ◌==◌, u32, u64, test_bit}
use snesrecomp.Base.{length, get_elem?}

-- `rejected` is the result NULL. `undefined`: an access left its array, and C promises nothing from
-- there on. `stuck` is no value of C: the loop ran out of fuel.
pub data Outcome : Type 0 where
  rejected undefined stuck : Outcome
  patched : List ℕ → Outcome

infixl 5 ◌>>=◌
abbrev pub ◌>>=◌ {ℓ κ} : {A : Type ℓ} {B : Type κ} → Option A → (A → Option B) → Option B
none >>= f = none
some a >>= f = f a

-- `none`: the number does not end in the patch.
pub decode_loop : List ℕ → ℕ → ℕ → Option (ℕ × List ℕ)
decode_loop [] total shift = none
decode_loop (x ∷ rest) total shift =
    let total' = u64 (total + bit_and x 0x7f * shift) in
    let shift' = u64 (shift * 2 ^ 7) in
    let more = decode_loop rest (u64 (total' + shift')) shift' in
    if test_bit x 7 then some (total', rest) else more

pub bps_decode_int : List ℕ → Option (ℕ × List ℕ)
bps_decode_int bytes = decode_loop bytes 0 1

-- `dst[outputOffset++] = value` of a `dst` of `dst_size` bytes.
pub put : ℕ → List ℕ → ℕ → Option (List ℕ)
put dst_size out value = if ltb (length out) dst_size then some (out ++ (value ∷ [])) else none

-- Command 0.
pub source_read : List ℕ → ℕ → ℕ → List ℕ → Option (List ℕ)
source_read src dst_size zero out = some out
source_read src dst_size (suc n) out = do
  value ← get_elem? src (length out)
  out' ← put dst_size out value
  source_read src dst_size n out'

-- Command 1.
pub target_read : ℕ → ℕ → List ℕ → List ℕ → Option (List ℕ × List ℕ)
target_read dst_size zero bytes out = some (out, bytes)
target_read dst_size (suc n) [] out = none
target_read dst_size (suc n) (value ∷ rest) out = do
  out' ← put dst_size out value
  target_read dst_size n rest out'

-- Command 2, from `offset` on.
pub source_copy : List ℕ → ℕ → ℕ → ℕ → List ℕ → Option (ℕ × List ℕ)
source_copy src dst_size zero offset out = some (offset, out)
source_copy src dst_size (suc n) offset out = do
  value ← get_elem? src offset
  out' ← put dst_size out value
  source_copy src dst_size n (u32 (offset + 1)) out'

-- Command 3: it may read what it has just written.
pub target_copy : ℕ → ℕ → ℕ → List ℕ → Option (ℕ × List ℕ)
target_copy dst_size zero offset out = some (offset, out)
target_copy dst_size (suc n) offset out = do
  value ← get_elem? out offset
  out' ← put dst_size out value
  target_copy dst_size n (u32 (offset + 1)) out'

-- `offset += (cmd & 1 ? -1 : +1) * (cmd >> 1)`.
pub move : ℕ → ℕ → ℕ
move offset cmd = if cmd % 2 == 1 then u32 (offset + 2 ^ 32 - cmd / 2) else u32 (offset + cmd / 2)

pub record Progress : Type 0 where
  pub out : List ℕ
  pub source_offset : ℕ
  pub target_offset : ℕ

abbrev pub progress : List ℕ → ℕ → ℕ → Progress
progress out source_offset target_offset = record {
  out = out;
  source_offset = source_offset;
  target_offset = target_offset;
}

-- The `switch` on `cmd & 3`, with `length` rounds.
pub run_command : List ℕ → ℕ → ℕ → ℕ → List ℕ → Progress → Option (Progress × List ℕ)
run_command src dst_size zero count bytes p = do
  out ← source_read src dst_size count p.out
  some (progress out p.source_offset p.target_offset, bytes)
run_command src dst_size (suc zero) count bytes p = do
  (out, rest) ← target_read dst_size count bytes p.out
  some (progress out p.source_offset p.target_offset, rest)
run_command src dst_size (suc (suc zero)) count bytes p = do
  (cmd, rest) ← bps_decode_int bytes
  (offset, out) ← source_copy src dst_size count (move p.source_offset (u32 cmd)) p.out
  some (progress out offset p.target_offset, rest)
run_command src dst_size _ count bytes p = do
  (cmd, rest) ← bps_decode_int bytes
  (offset, out) ← target_copy dst_size count (move p.target_offset (u32 cmd)) p.out
  some (progress out p.source_offset offset, rest)

-- One round of the loop over the commands.
pub run_round : List ℕ → ℕ → List ℕ → Progress → Option (Progress × List ℕ)
run_round src dst_size bytes p = do
  (decoded, rest) ← bps_decode_int bytes
  let cmd = u32 decoded
  run_command src dst_size (cmd % 2 ^ 2) (cmd / 2 ^ 2 + 1) rest p

-- `while (bps < bps_end)`: the last 12 bytes are the checksums.
pub run_commands : ℕ → List ℕ → ℕ → List ℕ → Progress → Outcome
run_commands zero src dst_size bytes p = stuck
run_commands (suc fuel) src dst_size bytes p = elim (ltb 12 (length bytes)) [
  | false ↦ patched p.out
  | true ↦ elim (run_round src dst_size bytes p) [
    | none ↦ undefined
    | some (p', rest) ↦ run_commands fuel src dst_size rest p'
  ]
]
