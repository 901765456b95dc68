-- ===== src/Patch/Apply.antt =====
-- `ApplyBps` of runner/src/util.c: the checks around the loop over the commands.
mod Parts
pub mod RoundTrip
pub mod Ends
mod Runs
use snesrecomp.Base.{ℕ, ◌+◌, ◌-◌, ◌*◌, ◌^◌, List, [], Bool, not, ◌&&◌, Option, none, some}
use snesrecomp.Base.{if◌then◌else◌, ltb, ◌==◌, ◌!=◌, u32, length, get_or, take, drop}
use snesrecomp.Checksum.{crc32}
use snesrecomp.Patch.{
  Outcome, rejected, undefined, stuck, patched, ◌>>=◌, bps_decode_int, progress, run_commands,
}

-- `*(uint32 *)(bytes + i)`, little-endian.
pub read_u32 : List ℕ → ℕ → ℕ
read_u32 bytes i =
    get_or bytes i 0
    + get_or bytes (i + 1) 0 * 2 ^ 8
    + get_or bytes (i + 2) 0 * 2 ^ 16
    + get_or bytes (i + 3) 0 * 2 ^ 24

-- "BPS1".
pub has_magic : List ℕ → Bool
has_magic bps =
    get_or bps 0 0 == 0x42
    && get_or bps 1 0 == 0x50
    && get_or bps 2 0 == 0x53
    && get_or bps 3 0 == 0x31

-- The sizes of the source and of the output, and what follows the three numbers.
pub read_sizes : List ℕ → Option (ℕ × ℕ × List ℕ)
read_sizes bytes = do
  (src_size, rest1) ← bps_decode_int bytes
  (dst_size, rest2) ← bps_decode_int rest1
  (meta_size, rest3) ← bps_decode_int rest2
  some (u32 src_size, u32 dst_size, rest3)

-- The output against its size and its checksum.
pub check_output : List ℕ → ℕ → Outcome → Outcome
check_output bps dst_size rejected = rejected
check_output bps dst_size undefined = undefined
check_output bps dst_size stuck = stuck
check_output bps dst_size (patched out) =
    if dst_size != length out
    then rejected
    else if crc32 out != read_u32 bps (length bps - 8)
    then rejected
    else patched out

-- `allocates n` is whether `malloc(n)` gives memory.
pub apply_sized : (ℕ → Bool) → List ℕ → List ℕ → ℕ → ℕ → List ℕ → Outcome
apply_sized allocates src bps src_size dst_size commands =
    if src_size != length src
    then rejected
    else if not (allocates dst_size)
    then rejected
    else check_output bps dst_size
        (run_commands (length bps) src dst_size commands (progress [] 0 0))

-- A patch shorter than its checksums is read out of bounds.
pub apply_bps : (ℕ → Bool) → List ℕ → List ℕ → Outcome
apply_bps allocates src bps =
    if ltb (length bps) 12
    then undefined
    else if not (has_magic bps)
    then rejected
    else if crc32 src != read_u32 bps (length bps - 12)
    then rejected
    else if crc32 (take (length bps - 4) bps) != read_u32 bps (length bps - 4)
    then rejected
    else elim (read_sizes (drop 4 bps)) [
      | none ↦ undefined
      | some (src_size, dst_size, commands) ↦
          apply_sized allocates src bps src_size dst_size commands
    ]
