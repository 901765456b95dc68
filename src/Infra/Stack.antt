-- ===== src/Infra/Stack.antt =====
-- The shadow call stack of runner/src/common_cpu_infra.c: `cpu_resolve_ancestor_skip` over the
-- recorded entry levels, and the tail-call context.
use snesrecomp.Base.{
  ℕ, zero, suc, ◌+◌, ◌-◌, ◌≤◌, ◌<◌, ◌≡◌, ◌≢◌, ◌||◌, Bool, true, false, Option, none, some, ltb,
  ◌==◌, if◌then◌else◌, arith, ℕ_discrete, ◌⊎◌, inl, inr, refl, dec_lt, ==_ne,
}

abbrev pub stack_depth : ℕ
stack_depth = 64

-- The loop `for (i = top - 2; i >= 0; i--)`, with `i + 1` rounds left.
unfoldable pub scan_ancestors : (ℕ → ℕ) → ℕ → ℕ → ℕ → Option ℕ
scan_ancestors entry_s top ret_s zero = none
scan_ancestors entry_s top ret_s (suc i) =
    let rest = scan_ancestors entry_s top ret_s i in
    if entry_s i == ret_s then some (top - 1 - i) else rest

-- `cpu_resolve_ancestor_skip`; `none` is -1.
unfoldable pub resolve_ancestor_skip : (ℕ → ℕ) → ℕ → ℕ → Option ℕ
resolve_ancestor_skip entry_s top ret_s =
    if ltb top 2 || ltb stack_depth top then none else scan_ancestors entry_s top ret_s (top - 1)

-- A found level is the nearest of the first `n` frames that was entered at `ret_s`.
scan_ancestors-some :
    (entry_s : ℕ → ℕ) (top ret_s n : ℕ) (skip : ℕ)
    → n < top
    → scan_ancestors entry_s top ret_s n ≡ some skip
    → (1 ≤ skip)
      × (top ≤ skip + n)
      × (skip < top)
      × (entry_s (top - 1 - skip) ≡ ret_s)
      × ((j : ℕ) → top - 1 - skip < j → j < n → entry_s j ≢ ret_s)
scan_ancestors-some entry_s top ret_s zero skip h e = absurd (unfold scan_ancestors in cc)
scan_ancestors-some entry_s top ret_s (suc i) skip h e = elim (ℕ_discrete (entry_s i) ret_s) [
  | yes same ↦
      let found : skip ≡ top - 1 - i = unfold scan_ancestors in ground arith in
      let back : top - 1 - skip ≡ i = omega arith in
      (omega arith, omega arith, omega arith, rw back same, λ j p q. absurd (omega arith))
  | no other ↦
      let e' : scan_ancestors entry_s top ret_s i ≡ some skip =
        unfold scan_ancestors in ground arith in
      let (a, b, c, d, f) = scan_ancestors-some entry_s top ret_s i skip (omega arith) e' in
      (
        a,
        omega arith,
        c,
        d,
        λ j p q. elim (ℕ_discrete j i) [
          | yes last ↦ rw last other
          | no before ↦ f j p (omega arith)
        ],
      )
]

scan_ancestors-none :
    (entry_s : ℕ → ℕ) (top ret_s n : ℕ)
    → scan_ancestors entry_s top ret_s n ≡ none
    → (j : ℕ) → j < n
    → entry_s j ≢ ret_s
scan_ancestors-none entry_s top ret_s zero e j h = absurd (omega arith)
scan_ancestors-none entry_s top ret_s (suc i) e j h = elim (ℕ_discrete (entry_s i) ret_s) [
  | yes same ↦ absurd (unfold scan_ancestors in ground arith)
  | no other ↦
      let e' : scan_ancestors entry_s top ret_s i ≡ none = unfold scan_ancestors in ground arith in
      elim (ℕ_discrete j i) [
        | yes last ↦ rw last other
        | no before ↦ scan_ancestors-none entry_s top ret_s i e' j (omega arith)
      ]
]

scan_ancestors-absent :
    (entry_s : ℕ → ℕ) (top ret_s n : ℕ)
    → ((j : ℕ) → j < n → entry_s j ≢ ret_s)
    → scan_ancestors entry_s top ret_s n ≡ none
unfolding scan_ancestors
scan_ancestors-absent entry_s top ret_s zero h = refl
scan_ancestors-absent entry_s top ret_s (suc i) h =
    rw (==_ne (entry_s i) ret_s (h i (omega arith)))
      (scan_ancestors-absent entry_s top ret_s i (λ j p. h j (omega arith)))

-- A skip count that `cpu_resolve_ancestor_skip` gives names a strict ancestor of the current frame
-- that was entered with the stack at `ret_s`, and no frame between the two was; the depth is then at
-- most 64. It gives none exactly when the depth is below 2 or above 64, or no strict ancestor was
-- entered there.
pub resolve_ancestor_skip_nearest :
    (entry_s : ℕ → ℕ) (top ret_s : ℕ)
    → ((skip : ℕ)
        → resolve_ancestor_skip entry_s top ret_s ≡ some skip
        → (1 ≤ skip)
          × (skip < top)
          × (top ≤ 64)
          × (entry_s (top - 1 - skip) ≡ ret_s)
          × ((j : ℕ) → top - 1 - skip < j → j < top - 1 → entry_s j ≢ ret_s))
      × (resolve_ancestor_skip entry_s top ret_s ≡ none
          → (top < 2) ⊎ (64 < top) ⊎ ((j : ℕ) → j < top - 1 → entry_s j ≢ ret_s))
      × ((top < 2) ⊎ (64 < top) ⊎ ((j : ℕ) → j < top - 1 → entry_s j ≢ ret_s)
          → resolve_ancestor_skip entry_s top ret_s ≡ none)
resolve_ancestor_skip_nearest entry_s top ret_s = (
  λ skip h.
      let bounds : (2 ≤ top) × (top ≤ 64) = unfold resolve_ancestor_skip in ground arith in
      let scanned : scan_ancestors entry_s top ret_s (top - 1) ≡ some skip =
        unfold resolve_ancestor_skip in ground arith in
      let (a, b, c, d, f) =
        scan_ancestors-some entry_s top ret_s (top - 1) skip (omega arith) scanned in
      (a, c, bounds.1, d, f),
  λ h. elim (dec_lt top 2) [
    | yes low ↦ inl low
    | no two ↦ inr (elim (dec_lt 64 top) [
      | yes high ↦ inl high
      | no fits ↦
          let scanned : scan_ancestors entry_s top ret_s (top - 1) ≡ none =
            unfold resolve_ancestor_skip in ground arith in
          inr (scan_ancestors-none entry_s top ret_s (top - 1) scanned)
    ])
  ],
  λ why. elim why [
    | inl low ↦ unfold resolve_ancestor_skip in ground arith
    | inr more ↦ elim more [
      | inl high ↦ unfold resolve_ancestor_skip in ground arith
      | inr absent ↦
          let scanned = scan_ancestors-absent entry_s top ret_s (top - 1) absent in
          unfold resolve_ancestor_skip in ground arith
    ]
  ],
)

-- `g_tailcall_context_valid`, `g_tailcall_entry_s` and `g_tailcall_hrv`, also the saved copy.
pub record TailcallContext : Type 0 where
  pub valid : Bool
  pub entry_s : ℕ
  pub hrv : ℕ

-- `cpu_tailcall_inherit_return_context`
unfoldable pub tailcall_inherit : TailcallContext → ℕ → ℕ → TailcallContext
tailcall_inherit t entry_s hrv = record { valid = true; entry_s = entry_s; hrv = hrv }

-- `cpu_take_tailcall_return_context`; `none` is the result 0, which writes nothing.
unfoldable pub take_tailcall : TailcallContext → Option (ℕ × ℕ) × TailcallContext
take_tailcall t =
    if t.valid then (some (t.entry_s, t.hrv), record t { valid = false }) else (none, t)

-- `cpu_tailcall_context_save` and `cpu_tailcall_context_restore`
unfoldable pub tailcall_save : TailcallContext → TailcallContext
tailcall_save t = t

unfoldable pub tailcall_restore : TailcallContext → TailcallContext → TailcallContext
tailcall_restore t saved = record { valid = saved.valid; entry_s = saved.entry_s; hrv = saved.hrv }
