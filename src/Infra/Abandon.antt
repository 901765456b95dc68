-- ===== src/Infra/Abandon.antt =====
-- `cpu_unresolved_abandon_balanced` and its table of sites.
use snesrecomp.Base.{
  ℕ, ◌+◌, ◌%◌, ◌^◌, ◌≤◌, ◌<◌, ◌≡◌, ◌≢◌, inl, inr, List, [], ◌∷◌, ◌++◌, none, some, ltb, ◌==◌,
  if◌then◌else◌, length, update_first, total, length-update_first, total-update_first, total-append,
  length-append, Option-cases, u16, u64, arith,
}
use snesrecomp.Cpu.{CpuState}

-- `UnresolvedAbandonSite`
pub record Site : Type 0 where
  pub site_pc24 : ℕ
  pub hits : ℕ
  pub first_frame : ℕ
  pub last_frame : ℕ
  pub last_hrv : ℕ

-- `g_unresolved_abandons` with its count, and the two totals.
pub record Abandons : Type 0 where
  pub sites : List Site
  pub total_hits : ℕ
  pub overflow : ℕ

abbrev pub max_sites : ℕ
max_sites = 256

-- A legacy `host_return_valid` of 1 means that the size of the frame is not known.
unfoldable pub frame_of_hrv : ℕ → ℕ
frame_of_hrv hrv = if hrv == 1 then 0 else hrv

abbrev pub hit : ℕ → ℕ → Site → Site
hit frame hrv s = record s { hits = u64 (s.hits + 1); last_frame = frame; last_hrv = hrv }

abbrev pub new_site : ℕ → ℕ → Site
new_site site_pc24 frame = record {
  site_pc24 = site_pc24;
  hits = 0;
  first_frame = frame;
  last_frame = 0;
  last_hrv = 0;
}

-- The table's part of the function.
unfoldable pub note_site : Abandons → ℕ → ℕ → ℕ → Abandons
note_site t site_pc24 frame hrv =
    let counted = u64 (t.total_hits + 1) in
    elim (update_first (λ s. s.site_pc24 == site_pc24) (hit frame hrv) t.sites) [
      | some sites ↦ record t { sites = sites; total_hits = counted }
      | none ↦
          if ltb (length t.sites) max_sites
          then record t {
            sites = t.sites ++ (hit frame hrv (new_site site_pc24 frame) ∷ []);
            total_hits = counted;
          }
          else record t { overflow = u64 (t.overflow + 1); total_hits = counted }
    ]

-- The arguments after the table and the CPU are the site, `entry_s`, `hrv` and the frame number.
-- The result is always `RECOMP_RETURN_NORMAL`, so only the state is returned.
unfoldable pub abandon_balanced : Abandons → CpuState → ℕ → ℕ → ℕ → ℕ → Abandons × CpuState
unfolding note_site frame_of_hrv
abandon_balanced t c site_pc24 entry_s hrv frame =
    let size = frame_of_hrv hrv in
    (note_site t site_pc24 frame size, record c { s = u16 (entry_s + size) })

-- Every hit is accounted for: by its site, or as overflow once the table is full.
pub record IsAccounted (t : Abandons) : Type 0 where
  pub bounded : length t.sites ≤ max_sites
  pub no_wrap : t.total_hits < 2 ^ 64
  pub sum : total (λ s. s.hits) t.sites + t.overflow ≡ t.total_hits

note_site-IsAccounted :
    (t : Abandons) (site_pc24 frame hrv : ℕ)
    → IsAccounted t
    → t.total_hits + 1 < 2 ^ 64
    → IsAccounted (note_site t site_pc24 frame hrv)
      × ((note_site t site_pc24 frame hrv).total_hits ≡ t.total_hits + 1)
unfolding note_site
note_site-IsAccounted t pc frame hrv a small =
    elim (Option-cases (update_first (λ s. s.site_pc24 == pc) (hit frame hrv) t.sites)) [
      | inl e ↦ ground (
        arith,
        length-append {0} t.sites (hit frame hrv (new_site pc frame) ∷ []),
        total-append {0} (λ s. s.hits) t.sites (hit frame hrv (new_site pc frame) ∷ []),
      )
      | inr (ys, e) ↦ ground (
        arith,
        length-update_first {0} (λ s. s.site_pc24 == pc) (hit frame hrv) t.sites e,
        total-update_first {0} (λ s. s.hits) (λ s. s.site_pc24 == pc) (hit frame hrv) (2 ^ 64)
            (λ s h. omega arith) t.sites (omega arith) e,
      )
    ]

-- Abandoning at a site keeps the account of the table as long as the total does not wrap, counts
-- one more hit, leaves the table within 256 sites, and sets S to the entry value plus the size of
-- the return frame, where the legacy value 1 counts as no frame; no other register changes.
pub abandon_balanced-IsAccounted :
    (t : Abandons) (c : CpuState) (site_pc24 entry_s hrv frame : ℕ)
    → IsAccounted t
    → t.total_hits + 1 < 2 ^ 64
    → let (t', c') = abandon_balanced t c site_pc24 entry_s hrv frame in
      IsAccounted t'
      × (t'.total_hits ≡ t.total_hits + 1)
      × (hrv ≡ 1 → c' ≡ record c { s = entry_s % 2 ^ 16 })
      × (hrv ≢ 1 → c' ≡ record c { s = (entry_s + hrv) % 2 ^ 16 })
unfolding abandon_balanced
abandon_balanced-IsAccounted t c site_pc24 entry_s hrv frame a small =
    ground (arith, note_site-IsAccounted t site_pc24 frame (frame_of_hrv hrv) a small)
