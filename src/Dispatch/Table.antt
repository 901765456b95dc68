-- ===== src/Dispatch/Table.antt =====
-- `g_dispatch_table` and `_cpu_dispatch_lookup`. The table is generated code: a parameter, as a
-- list of rows. A row's `variant` gives the compiled body for an index of the M and X flags, or
-- `none` where the generator emitted none (a null pointer).
use snesrecomp.Base.{
  ℕ, zero, suc, ◌+◌, ◌-◌, ◌*◌, ◌/◌, ◌%◌, List, Option, none, some, ltb, ◌==◌, if◌then◌else◌, length,
  get_elem?,
}
use snesrecomp.Cpu.{CpuState}

-- `DispatchEntry`; `F` is the type of a compiled body.
pub record DispatchEntry (F : Type 0) : Type 0 where
  pub pc24 : ℕ
  pub variant : ℕ → Option F

-- `((m_flag & 1) << 1) | (x_flag & 1)`
unfoldable pub mx_index : CpuState → ℕ
mx_index c = c.m_flag % 2 * 2 + c.x_flag % 2

module _ {F : Type 0} (table : List (DispatchEntry F)) (idx pc : ℕ) where
  -- The loop of the binary search over `[lo, hi)`, with fuel. `none` means that the fuel ran out
  -- or that the search read past the table.
  unfoldable pub search : ℕ → ℕ → ℕ → Option (Option F)
  search zero lo hi = none
  search (suc fuel) lo hi =
      let mid = lo + (hi - lo) / 2 in
      let right = search fuel (mid + 1) hi in
      let left = search fuel lo mid in
      if ltb lo hi
      then (elim (get_elem? table mid) [
        | none ↦ none
        | some e ↦
            if e.pc24 == pc then some (e.variant idx) else if ltb e.pc24 pc then right else left
      ])
      else some none

-- The whole table, with fuel for its length; `lookup` reads the result.
unfoldable pub lookup : {F : Type 0} → List (DispatchEntry F) → ℕ → ℕ → Option F
unfolding search
lookup table idx pc = elim (search table idx pc (suc (length table)) 0 (length table)) [
  | none ↦ none
  | some found ↦ found
]
