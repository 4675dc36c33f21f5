-- ===== src/Gpu/Reads.antt =====
-- Settling and deleting a production do not change what a read of its hours reports
-- (src/services/gpu-usage.ts).
use open_live.Prelude.{
  ℕ, ◌+◌, ◌*◌, ◌%◌, ◌≤◌, Bool, true, false, [], ◌∷◌, none, some, if◌then◌else◌, get_or, leb, nat_eq,
  ◌≡◌, refl, arith, ◌⊎◌, inl, inr,
}
use open_live.Prelude.Dict.{lookup}
use open_live.Production.{ProductionDoc, active}
use open_live.Gpu.Buckets.{
  Hours, hour_ms, start_of_utc_hour, compute_hour_buckets, accrual_start, prune_expired_hours,
  merge_hours, overlap_seconds,
}
use open_live.Gpu.Spec.{
  bucket_from, lookup-compute_hour_buckets, lookup-merge_hours, compute_hour_buckets-UniqueKeys,
}
use open_live.Gpu.Settle.{GpuConfig, settle_doc, hours_for_production}

pub lookup-prune_expired_hours :
    (retention : ℕ) (hours : Hours) (now k : ℕ)
    → lookup k (prune_expired_hours retention hours now)
      ≡ (if leb now (k + retention * hour_ms) then lookup k hours else none)
unfolding prune_expired_hours lookup
lookup-prune_expired_hours retention [] now k = ground arith
lookup-prune_expired_hours retention ((j, s) ∷ hours) now k =
    ground (arith, lookup-prune_expired_hours retention hours now k, nat_eq.beq_iff j k)

-- Buckets settled at the end of a closed hour, with expired ones dropped, lead a later read to the
-- same seconds for an hour that is not expired.
settled-lookup :
    (retention from now e₁ e₂ : ℕ) (existing : Hours) (k : ℕ)
    → k % hour_ms ≡ 0
    → e₁ % hour_ms ≡ 0
    → e₁ ≤ e₂
    → now ≤ k + retention * hour_ms
    → let settled =
        merge_hours
          (prune_expired_hours retention existing now)
          (compute_hour_buckets from e₁ existing) in
      lookup k (merge_hours settled (compute_hour_buckets from e₂ settled))
      ≡ lookup k (merge_hours existing (compute_hour_buckets from e₂ existing))
unfolding bucket_from overlap_seconds
settled-lookup retention from now e₁ e₂ existing k ak closed le kept =
    let fresh = compute_hour_buckets from e₁ existing in
    let pruned = prune_expired_hours retention existing now in
    let settled = merge_hours pruned fresh in
    ground (
      arith,
      lookup-merge_hours pruned fresh k (compute_hour_buckets-UniqueKeys from e₁ existing),
      lookup-prune_expired_hours retention existing now k,
      lookup-merge_hours settled (compute_hour_buckets from e₂ settled) k
          (compute_hour_buckets-UniqueKeys from e₂ settled),
      lookup-merge_hours existing (compute_hour_buckets from e₂ existing) k
          (compute_hour_buckets-UniqueKeys from e₂ existing),
      lookup-compute_hour_buckets from e₁ existing k ak,
      lookup-compute_hour_buckets from e₂ settled k ak,
      lookup-compute_hour_buckets from e₂ existing k ak,
    )

pub hours_for_production_live :
    (c : GpuConfig) (doc : ProductionDoc) (a later : ℕ)
    → doc.status ≡ active
    → doc.activated_at ≡ some a
    → hours_for_production c doc later false
      ≡ merge_hours (get_or doc.gpu_hours []) (
          compute_hour_buckets
            (accrual_start c.accrual_floor_ms a)
            (start_of_utc_hour later)
            (get_or doc.gpu_hours []))
unfolding hours_for_production
hours_for_production_live c doc a later live started = rw (hours_for_production, live, started)

module _ (c : GpuConfig) (doc : ProductionDoc) (a : ℕ) where
  settled : ℕ → Hours
  settled now = merge_hours (prune_expired_hours c.retention_hours (get_or doc.gpu_hours []) now) (
      compute_hour_buckets (accrual_start c.accrual_floor_ms a) (start_of_utc_hour now)
        (get_or doc.gpu_hours []))

  -- What the sweep writes over a live production: its buckets, and nothing else that a read uses.
  Settles : ℕ → ProductionDoc → Type 0
  Settles now written =
      (written.status ≡ active)
      × (written.activated_at ≡ some a)
      × (get_or written.gpu_hours [] ≡ settled now)

  settle_doc_cases :
      (now : ℕ)
      → doc.status ≡ active
      → doc.activated_at ≡ some a
      → (settle_doc c doc now ≡ none)
        ⊎ ((written : ProductionDoc) × (settle_doc c doc now ≡ some written) × Settles now written)
  unfolding settle_doc Settles settled
  settle_doc_cases now live started =
      rw (settle_doc, live, started)
        (written_cases _ (record doc { gpu_hours = some (settled now) }) (live, started, refl))
    where
      written_cases :
          (b : Bool) (d : ProductionDoc)
          → Settles now d
          → ((if b then none else some d) ≡ none)
            ⊎ ((written : ProductionDoc) × ((if b then none else some d) ≡ some written)
                × Settles now written)
      written_cases true d h = inl refl
      written_cases false d h = inr (d, refl, h)

  -- For an active production with an activation time, a read at the time of a sweep or later gives
  -- an hour within the sweep's retention window the same seconds, whether or not the sweep has
  -- settled the production before.
  pub settle-invisible :
      (now later k : ℕ)
      → doc.status ≡ active
      → doc.activated_at ≡ some a
      → k % hour_ms ≡ 0
      → now ≤ k + c.retention_hours * hour_ms
      → now ≤ later
      → lookup k (hours_for_production c (get_or (settle_doc c doc now) doc) later false)
        ≡ lookup k (hours_for_production c doc later false)
  unfolding start_of_utc_hour Settles settled
  settle-invisible now later k live started ak kept le = elim (settle_doc_cases now live started) [
    | inl e ↦ rw e
    | inr (written, e, (w_live, w_started, w_hours)) ↦
        rw
          (
            e,
            hours_for_production_live c written a later w_live w_started,
            hours_for_production_live c doc a later live started,
            w_hours,
          )
          (settled-lookup c.retention_hours (accrual_start c.accrual_floor_ms a) now
            (start_of_utc_hour now) (start_of_utc_hour later) (get_or doc.gpu_hours []) k ak
            (omega arith) (omega arith) kept)
  ]
