-- ===== src/Infra/Balance.antt =====
-- The stack-balance auditor of runner/src/common_cpu_infra.c: `stackbal_find`, the open-addressing
-- table of function names, and the accounting of `RecompStackPop`. A name is a non-zero number,
-- the address of an interned string; 0 is the null pointer of a free slot.
use snesrecomp.Base.{
  ℕ, zero, suc, ◌+◌, ◌-◌, ◌/◌, ◌%◌, ◌^◌, ◌<◌, ◌≡◌, ◌≢◌, Option, none, some, ltb, ◌==◌, ◌!=◌,
  if◌then◌else◌, Memory, update, update_self, u16, u64, arith, ℕ_discrete, inl, inr, ◌⊎◌,
}

abbrev pub bal_max : ℕ
bal_max = 2048

-- The `i`-th slot of the probe sequence of a hash.
abbrev pub bal_slot : ℕ → ℕ → ℕ
bal_slot h i = (h + i) % bal_max

-- The loop with `left` rounds to go, over the names of the slots. A free slot is claimed, which
-- is the caller's `update`.
unfoldable pub find_loop : Memory → ℕ → ℕ → ℕ → ℕ → Option ℕ
find_loop names name h zero i = none
find_loop names name h (suc left) i =
    let rest = find_loop names name h left (i + 1) in
    if names (bal_slot h i) == name
    then some (bal_slot h i)
    else if names (bal_slot h i) == 0
    then some (bal_slot h i)
    else rest

-- `stackbal_find`: the slot and the names after it.
unfoldable pub stackbal_find : Memory → ℕ → Option (ℕ × Memory)
stackbal_find names name = elim (find_loop names name (name / 2 ^ 4 % bal_max) bal_max 0) [
  | none ↦ none
  | some idx ↦ some (idx, update names idx name)
]

find_loop-slot :
    (names : Memory) (name h left i idx : ℕ)
    → find_loop names name h left i ≡ some idx
    → ((names idx ≡ name) ⊎ (names idx ≡ 0)) × (idx < bal_max)
find_loop-slot names name h zero i idx e = absurd (unfold find_loop in cc)
find_loop-slot names name h (suc left) i idx e = elim (ℕ_discrete (names (bal_slot h i)) name) [
  | yes hit ↦
      let same : idx ≡ bal_slot h i = unfold find_loop in ground arith in
      (inl (rw same hit), omega arith)
  | no miss ↦ elim (ℕ_discrete (names (bal_slot h i)) 0) [
    | yes free ↦
        let same : idx ≡ bal_slot h i = unfold find_loop in ground arith in
        (inr (rw same free), omega arith)
    | no taken ↦
        let e' : find_loop names name h left (i + 1) ≡ some idx =
          unfold find_loop in ground arith in
        find_loop-slot names name h left (i + 1) idx e'
  ]
]

-- A name that is found at its own slot is still found there after a slot that was free, or held
-- the other name already, has been given to that other name.
find_loop_claimed :
    (names : Memory) (name other h left i idx j : ℕ)
    → name ≢ 0
    → other ≢ 0
    → name ≢ other
    → (names idx ≡ name) ⊎ (names idx ≡ 0)
    → find_loop names other h left i ≡ some j
    → names j ≡ other
    → find_loop (update names idx name) other h left i ≡ some j
unfolding find_loop
find_loop_claimed names name other h zero i idx j p q ne s e there = absurd (cc)
find_loop_claimed names name other h (suc left) i idx j p q ne s e there =
    elim (ℕ_discrete (names (bal_slot h i)) other) [
      | yes hit ↦ ground arith
      | no miss ↦ elim (ℕ_discrete (names (bal_slot h i)) 0) [
        | yes free ↦ absurd (ground arith)
        | no taken ↦
            let e' : find_loop names other h left (i + 1) ≡ some j = ground arith in
            let r = find_loop_claimed names name other h left (i + 1) idx j p q ne s e' there in
            ground arith
      ]
    ]

find_loop_again :
    (names : Memory) (name h left i idx : ℕ)
    → name ≢ 0
    → find_loop names name h left i ≡ some idx
    → find_loop (update names idx name) name h left i ≡ some idx
unfolding find_loop
find_loop_again names name h zero i idx p e = absurd (cc)
find_loop_again names name h (suc left) i idx p e = elim (ℕ_discrete (names (bal_slot h i)) name) [
  | yes hit ↦ ground arith
  | no miss ↦ elim (ℕ_discrete (names (bal_slot h i)) 0) [
    | yes free ↦ ground arith
    | no taken ↦
        let e' : find_loop names name h left (i + 1) ≡ some idx = ground arith in
        let r = find_loop_again names name h left (i + 1) idx p e' in ground arith
  ]
]

abbrev pub slot_of : Option (ℕ × Memory) → Option ℕ
slot_of none = none
slot_of (some (idx, names)) = some idx

-- A name that has been given a slot of the table stands there and is found there from then on,
-- and giving it the slot does not move another name that was already in the table.
pub stackbal_find_stable :
    (names after : Memory) (name other idx j : ℕ)
    → name ≢ 0
    → other ≢ 0
    → name ≢ other
    → stackbal_find names name ≡ some (idx, after)
    → slot_of (stackbal_find names other) ≡ some j
    → names j ≡ other
    → (idx < bal_max)
      × (after idx ≡ name)
      × (slot_of (stackbal_find after name) ≡ some idx)
      × (slot_of (stackbal_find after other) ≡ some j)
stackbal_find_stable names after name other idx j p q ne e f there =
    rw store (small.1, update_self names idx name, again, kept)
  where
    store : after ≡ update names idx name
    store = unfold stackbal_find in ground arith

    found : find_loop names name (name / 2 ^ 4 % bal_max) bal_max 0 ≡ some idx
    found = unfold stackbal_find in ground arith

    found_other : find_loop names other (other / 2 ^ 4 % bal_max) bal_max 0 ≡ some j
    found_other = unfold stackbal_find in ground arith

    small : ((names idx ≡ name) ⊎ (names idx ≡ 0)) × (idx < bal_max)
    small = find_loop-slot names name (name / 2 ^ 4 % bal_max) bal_max 0 idx found

    again : slot_of (stackbal_find (update names idx name) name) ≡ some idx
    again =
        unfold stackbal_find in
        ground (arith, find_loop_again names name (name / 2 ^ 4 % bal_max) bal_max 0 idx p found)

    kept : slot_of (stackbal_find (update names idx name) other) ≡ some j
    kept =
        unfold stackbal_find in
        ground (
          arith,
          find_loop_claimed names name other (other / 2 ^ 4 % bal_max) bal_max 0 idx j p q ne
              (small.0) found_other there,
        )

-- `StackBalEntry` without its name. The 64-bit total is in two's complement.
pub record BalEntry : Type 0 where
  pub total_delta : ℕ
  pub calls : ℕ
  pub nonzero : ℕ
  pub last_delta : ℕ

-- `(int)(int16_t)(s - entry_s)`, as a 64-bit two's complement number.
abbrev pub delta16 : ℕ → ℕ → ℕ
delta16 s entry_s =
    let d = u16 (s + 2 ^ 16 - entry_s) in if ltb d (2 ^ 15) then d else d + (2 ^ 64 - 2 ^ 16)

-- The accounting of one return, in `RecompStackPop`.
unfoldable pub bal_account : BalEntry → ℕ → ℕ → BalEntry
bal_account e s entry_s =
    let delta = delta16 s entry_s in
    if delta != 0
    then record {
      total_delta = u64 (e.total_delta + delta);
      calls = e.calls + 1;
      nonzero = e.nonzero + 1;
      last_delta = delta;
    }
    else record e { calls = e.calls + 1 }

-- A return counts as unbalanced exactly when S differs from the value at entry; an unbalanced
-- return followed by its exact opposite leaves the total where it was.
pub bal_account_net :
    (e : BalEntry) (s entry_s : ℕ)
    → s < 2 ^ 16
    → entry_s < 2 ^ 16
    → e.total_delta < 2 ^ 64
    → s + 2 ^ 15 ≢ entry_s
    → entry_s + 2 ^ 15 ≢ s
    → ((bal_account e s entry_s).nonzero ≡ e.nonzero → s ≡ entry_s)
      × (s ≡ entry_s → (bal_account e s entry_s).nonzero ≡ e.nonzero)
      × ((bal_account (bal_account e s entry_s) entry_s s).total_delta ≡ e.total_delta)
unfolding bal_account
bal_account_net e s entry_s h g b lo hi = (λ q. ground arith, λ q. ground arith, ground arith)
