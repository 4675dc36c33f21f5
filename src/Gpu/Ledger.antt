-- ===== src/Gpu/Ledger.antt =====
-- What `preserveGpuUsageOnDelete` of src/services/gpu-usage.ts keeps of a deleted production.
use open_live.Prelude.{
  ℕ, ◌+◌, ◌*◌, ◌%◌, ◌≤◌, ◌<◌, true, false, [], ◌∷◌, none, some, if◌then◌else◌, get_or, nat_eq, ◌≡◌,
  refl, ◌∙◌, arith, Option-cases, Bool-cases, ◌⊎◌, inl, inr,
}
use open_live.Prelude.Dict.{lookup}
use open_live.Production.{ProductionDoc, active, is_active}
use open_live.Gpu.Buckets.{
  Hours, hour_ms, start_of_utc_hour, compute_hour_buckets, accrual_start, prune_expired_hours,
  merge_hours, overlap_seconds,
}
use open_live.Gpu.Spec.{
  bucket_from, lookup-compute_hour_buckets, lookup-merge_hours, compute_hour_buckets-UniqueKeys,
}
use open_live.Gpu.Settle.{GpuConfig, settle_on_stop, ledger_hours, hours_for_production, is_empty}
use open_live.Gpu.Reads.{lookup-prune_expired_hours, hours_for_production_live}

-- An empty map is stored as `none`, which reads as no hours again.
lookup-stored :
    (m : Hours) (k : ℕ) → lookup k (get_or (if is_empty m then none else some m) []) ≡ lookup k m
lookup-stored [] k = refl
lookup-stored (b ∷ m) k = refl

lookup-stored_or :
    (m other : Hours) (k : ℕ)
    → lookup k (get_or (if is_empty m then none else some m) other)
      ≡ (if is_empty m then lookup k other else lookup k m)
lookup-stored_or [] other k = refl
lookup-stored_or (b ∷ m) other k = refl

lookup-is_empty : (m : Hours) (k : ℕ) → is_empty m ≡ true → lookup k m ≡ none
unfolding lookup
lookup-is_empty [] k e = refl
lookup-is_empty (b ∷ m) k e = cc

module _ (c : GpuConfig) (doc : ProductionDoc) (now k : ℕ) (on : c.enabled ≡ true) where
  hours : Hours
  hours = get_or doc.gpu_hours []

  pruned : Hours
  unfolding hours
  pruned = prune_expired_hours c.retention_hours hours now

  lookup-ledger_hours :
      lookup k (get_or (ledger_hours c doc now) [])
      ≡ lookup k (get_or (settle_on_stop c doc now) pruned)
  unfolding ledger_hours pruned
  lookup-ledger_hours = ground (arith, lookup-stored (get_or (settle_on_stop c doc now) pruned) k)

  settle_on_stop_stopped : doc.activated_at ≡ none → settle_on_stop c doc now ≡ none
  unfolding settle_on_stop
  settle_on_stop_stopped stopped = rw (settle_on_stop, on, stopped)

  merged : ℕ → Hours
  unfolding hours
  merged a =
      prune_expired_hours c.retention_hours
        (merge_hours hours (compute_hour_buckets (accrual_start c.accrual_floor_ms a) now hours))
        now

  settle_on_stop_started :
      (a : ℕ)
      → doc.activated_at ≡ some a
      → settle_on_stop c doc now ≡ (if is_empty (merged a) then none else some (merged a))
  unfolding settle_on_stop merged
  settle_on_stop_started a started = rw (settle_on_stop, on, started)

  -- A bucket of the ledger of a live production, with the running hour in it.
  lookup-ledger_hours_started :
      (a : ℕ)
      → doc.activated_at ≡ some a
      → k % hour_ms ≡ 0
      → now ≤ k + c.retention_hours * hour_ms
      → lookup k (get_or (ledger_hours c doc now) [])
        ≡ lookup k (
            merge_hours hours (compute_hour_buckets (accrual_start c.accrual_floor_ms a) now hours))
  unfolding merged pruned
  lookup-ledger_hours_started a started ak kept =
      let from = accrual_start c.accrual_floor_ms a in
      let fresh = compute_hour_buckets from now hours in
      lookup-ledger_hours
      ∙ rw (settle_on_stop_started a started) (
          ground (
            arith,
            lookup-stored_or (merged a) pruned k,
            lookup-is_empty (merged a) k,
            lookup-prune_expired_hours c.retention_hours hours now k,
            lookup-prune_expired_hours c.retention_hours (merge_hours hours fresh) now k,
            lookup-merge_hours hours fresh k (compute_hour_buckets-UniqueKeys from now hours),
          ))

  not_started-hours : doc.activated_at ≡ none → hours_for_production c doc now false ≡ hours
  unfolding hours_for_production hours
  not_started-hours stopped = elim (Bool-cases (is_active doc.status)) [
    | inl live ↦ rw (hours_for_production, live, stopped)
    | inr off ↦ rw (hours_for_production, off)
  ]

  -- While metering is enabled, the ledger of a deleted production, which is active or has no
  -- activation time, holds for every closed hour within the retention window the seconds that a read
  -- of the production reported at that time.
  pub lookup-ledger :
      (doc.activated_at ≡ none) ⊎ (doc.status ≡ active)
      → k % hour_ms ≡ 0
      → k < start_of_utc_hour now
      → now ≤ k + c.retention_hours * hour_ms
      → lookup k (get_or (ledger_hours c doc now) [])
        ≡ lookup k (hours_for_production c doc now false)
  unfolding bucket_from overlap_seconds start_of_utc_hour hours pruned
  lookup-ledger state ak closed kept = elim (Option-cases doc.activated_at) [
    | inl stopped ↦
        rw (not_started-hours stopped, lookup-ledger_hours, settle_on_stop_stopped stopped)
          (ground (arith, lookup-prune_expired_hours c.retention_hours hours now k))
    | inr (a, started) ↦
        let from = accrual_start c.accrual_floor_ms a in
        let live : doc.status ≡ active = ground arith in
        let till = start_of_utc_hour now in
        rw (hours_for_production_live c doc a now live started) (
          lookup-ledger_hours_started a started ak kept
          ∙ ground (
            arith,
            lookup-merge_hours hours (compute_hour_buckets from now hours) k
                (compute_hour_buckets-UniqueKeys from now hours),
            lookup-merge_hours hours (compute_hour_buckets from till hours) k
                (compute_hour_buckets-UniqueKeys from till hours),
            lookup-compute_hour_buckets from now hours k ak,
            lookup-compute_hour_buckets from till hours k ak,
          ))
  ]
