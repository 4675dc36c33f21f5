-- ===== src/Gpu/Settle.antt =====
-- src/services/gpu-usage.ts: settling a production on its stop, on its deletion and in the sweep,
-- and the hours that a read reports.
use open_live.Prelude.{
  ℕ, zero, suc, ◌+◌, Bool, true, false, not, ◌&&◌, [], ◌∷◌, Option, none, some, if◌then◌else◌,
  get_or, ltb, nat_beq, length, string_eq,
}
use open_live.Production.{ProductionDoc, is_active}
use open_live.Gpu.Buckets.{
  Hours, start_of_utc_hour, compute_hour_buckets, accrual_start, prune_expired_hours, merge_hours,
}

-- `isGpuMeteringEnabled()`, `config.gpuUsageRetentionHours` and `accrualFloorMs`.
pub record GpuConfig : Type 0 where
  pub enabled : Bool
  pub retention_hours : ℕ
  pub accrual_floor_ms : Option ℕ

abbrev pub is_empty : Hours → Bool
is_empty [] = true
is_empty (_ ∷ _) = false

unfoldable pub settle_on_stop : GpuConfig → ProductionDoc → ℕ → Option Hours
settle_on_stop c doc now = if not c.enabled then none else elim doc.activated_at [
  | none ↦ none
  | some activated_at ↦
      let existing = get_or doc.gpu_hours [] in
      let fresh =
        compute_hour_buckets (accrual_start c.accrual_floor_ms activated_at) now existing in
      let merged = prune_expired_hours c.retention_hours (merge_hours existing fresh) now in
      if is_empty merged then none else some merged
]

-- The `gpuHours` of the ledger that `preserveGpuUsageOnDelete` writes, if it writes one.
unfoldable pub ledger_hours : GpuConfig → ProductionDoc → ℕ → Option Hours
ledger_hours c doc now =
    if not c.enabled
    then none
    else (let settled =
          get_or (settle_on_stop c doc now)
            (prune_expired_hours c.retention_hours (get_or doc.gpu_hours []) now) in
        if is_empty settled then none else some settled)

-- One attempt of `settleOneProduction` after its read: the document that it would insert, or `none`
-- where it returns without a write.
unfoldable pub settle_doc : GpuConfig → ProductionDoc → ℕ → Option ProductionDoc
settle_doc c doc now = if not (is_active doc.status) then none else elim doc.activated_at [
  | none ↦ none
  | some activated_at ↦
      let existing = get_or doc.gpu_hours [] in
      let fresh =
        compute_hour_buckets (accrual_start c.accrual_floor_ms activated_at) (start_of_utc_hour now)
          existing in
      let pruned = prune_expired_hours c.retention_hours existing now in
      let pruned_away = not (nat_beq (length pruned) (length existing)) in
      if is_empty fresh && not pruned_away
      then none
      else some (record doc { gpu_hours = some (merge_hours pruned fresh) })
]

-- What CouchDB answers to an insert.
pub data Write : Type 0 where
  stored conflict failed : Write

-- The attempts of `settleOneProduction`: what each reads (`none` if the read throws) and how its
-- insert is answered, since other writers may come in between. The result is what was stored.
unfoldable pub settle_attempts :
    ℕ → GpuConfig → ℕ → (ℕ → Option ProductionDoc) → (ℕ → Write) → ℕ → Option ProductionDoc
settle_attempts zero c now reads writes attempt = none
settle_attempts (suc left) c now reads writes attempt =
    let again = settle_attempts left c now reads writes (attempt + 1) in
    elim (reads attempt) [
      | none ↦ none
      | some doc ↦ elim (settle_doc c doc now) [
        | none ↦ none
        | some written ↦ elim (writes attempt) [
          | stored ↦ some written
          | conflict ↦ if ltb attempt 2 then again else none
          | failed ↦ none
        ]
      ]
    ]

unfoldable pub settle_one_production :
    GpuConfig → ℕ → (ℕ → Option ProductionDoc) → (ℕ → Write) → Option ProductionDoc
unfolding settle_attempts
settle_one_production c now reads writes = settle_attempts 3 c now reads writes 0

unfoldable pub hours_for_production : GpuConfig → ProductionDoc → ℕ → Bool → Hours
hours_for_production c doc now include_current_partial_hour =
    let existing = get_or doc.gpu_hours [] in
    if is_active doc.status
    then elim doc.activated_at [
      | none ↦ existing
      | some activated_at ↦
          let end = if include_current_partial_hour then now else start_of_utc_hour now in
          merge_hours existing
            (compute_hour_buckets (accrual_start c.accrual_floor_ms activated_at) end existing)
    ]
    else existing
