-- ===== src/Bridge/Coverage.antt =====
-- `tier2_record`: the manifest of coverage gaps, one row for each site, target and M/X state.
use snesrecomp.Base.{
  ℕ, ◌+◌, ◌^◌, ◌≤◌, ◌<◌, ◌≡◌, inl, inr, List, [], ◌∷◌, ◌++◌, Bool, true, false, ◌&&◌, none, some,
  ltb, ◌==◌, if◌then◌else◌, length, update_first, total, length-update_first, total-update_first,
  total-append, length-append, Option-cases, u64, arith,
}

-- `TIER2_KIND_DISPATCH`, `TIER2_KIND_INDIRECT_GOTO` and `TIER2_KIND_BANK_MISS`
pub data Kind : Type 0 where
  dispatch indirect_goto bank_miss : Kind

-- `Tier2CovSite`
pub record CovSite : Type 0 where
  pub site_pc24 : ℕ
  pub target_pc24 : ℕ
  pub mx : ℕ
  pub kind : Kind
  pub clean_hits : ℕ
  pub bail_hits : ℕ
  pub first_frame : ℕ
  pub last_frame : ℕ

pub record Coverage : Type 0 where
  pub sites : List CovSite
  pub overflow : ℕ

abbrev pub coverage_max : ℕ
coverage_max = 1024

abbrev pub is_row : ℕ → ℕ → ℕ → CovSite → Bool
is_row site target mx s = (s.site_pc24 == site) && ((s.target_pc24 == target) && (s.mx == mx))

abbrev pub count_hit : ℕ → Bool → CovSite → CovSite
count_hit frame true s = record s { clean_hits = u64 (s.clean_hits + 1); last_frame = frame }
count_hit frame false s = record s { bail_hits = u64 (s.bail_hits + 1); last_frame = frame }

abbrev pub new_row : ℕ → ℕ → ℕ → Kind → ℕ → CovSite
new_row site target mx kind frame = record {
  site_pc24 = site;
  target_pc24 = target;
  mx = mx;
  kind = kind;
  clean_hits = 0;
  bail_hits = 0;
  first_frame = frame;
  last_frame = 0;
}

unfoldable pub tier2_record : Coverage → ℕ → ℕ → ℕ → Kind → Bool → ℕ → Coverage
tier2_record t site target mx kind clean frame =
    elim (update_first (is_row site target mx) (count_hit frame clean) t.sites) [
      | some sites ↦ record t { sites = sites }
      | none ↦
          if ltb (length t.sites) coverage_max
          then record t {
            sites = t.sites ++ (count_hit frame clean (new_row site target mx kind frame) ∷ []);
          }
          else record t { overflow = u64 (t.overflow + 1) }
    ]

abbrev pub hits : CovSite → ℕ
hits s = s.clean_hits + s.bail_hits

-- All that the table has counted.
abbrev pub counted : Coverage → ℕ
counted t = total hits t.sites + t.overflow

-- A record counts exactly one more event, as a clean run, a bail or an overflow, and the table
-- stays within 1024 rows, as long as the count stays below 2^64. An overflow happens only when
-- the table is full.
pub tier2_record-counted :
    (t : Coverage) (site target mx : ℕ) (kind : Kind) (clean : Bool) (frame : ℕ)
    → counted t + 1 < 2 ^ 64
    → length t.sites ≤ coverage_max
    → let t' = tier2_record t site target mx kind clean frame in
      (counted t' ≡ counted t + 1)
      × (length t'.sites ≤ coverage_max)
      × (length t.sites < coverage_max → t'.overflow ≡ t.overflow)
unfolding tier2_record
tier2_record-counted t site target mx kind clean frame small bounded =
    elim (Option-cases (update_first (is_row site target mx) (count_hit frame clean) t.sites)) [
      | inl e ↦
          let row = count_hit frame clean (new_row site target mx kind frame) in
          let one : hits row ≡ 1 = one_hit clean in
          let n = length-append {0} t.sites (row ∷ []) in
          let s = total-append {0} hits t.sites (row ∷ []) in
          (ground arith, ground arith, λ p. ground arith)
      | inr (ys, e) ↦
          let n =
            length-update_first {0} (is_row site target mx) (count_hit frame clean) t.sites e in
          let s =
            total-update_first {0} hits (is_row site target mx) (count_hit frame clean) (2 ^ 64)
              (up clean) t.sites (omega arith) e in
          (ground arith, ground arith, λ p. ground arith)
    ]
  where
    one_hit : (b : Bool) → hits (count_hit frame b (new_row site target mx kind frame)) ≡ 1
    one_hit true = omega arith
    one_hit false = omega arith

    up : (b : Bool) (s : CovSite) → hits s + 1 < 2 ^ 64 → hits (count_hit frame b s) ≡ hits s + 1
    up true s h = omega arith
    up false s h = omega arith
