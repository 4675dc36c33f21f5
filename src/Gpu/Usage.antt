-- ===== src/Gpu/Usage.antt =====
-- src/services/gpu-usage.ts: the paged scans, the sweep over the live productions, the write of a
-- ledger, and the hours of a usage response.
use open_live.Prelude.{
  ℕ, zero, suc, ◌+◌, String, Bool, true, false, not, ◌&&◌, List, [], ◌∷◌, ◌++◌, Option, none, some,
  if◌then◌else◌, ltb, length, keep, map, string_eq,
}
use open_live.Prelude.Dict.{lookup, insert}
use open_live.Production.{ProductionDoc}
use open_live.Gpu.Buckets.{Hours, start_of_utc_hour, prune_expired_hours, merge_hours}
use open_live.Gpu.Settle.{
  GpuConfig, is_empty, Write, stored, conflict, failed, ledger_hours, hours_for_production,
}

abbrev pub usage_scan_page_limit : ℕ
usage_scan_page_limit = 200

-- The pages that the database returns for one bookmark after another; a page shorter than the limit
-- ends the scan. `none` means that the rounds ran out.
unfoldable pub scan {ℓ} : {A : Type ℓ} → ℕ → (ℕ → List A) → ℕ → Option (List A)
scan zero page n = none
scan (suc rounds) page n =
    let rest = scan rounds page (n + 1) in
    if ltb (length (page n)) usage_scan_page_limit
    then some (page n)
    else elim rest [ none ↦ none | some docs ↦ some (page n ++ docs) ]

pub record Ledger : Type 0 where
  pub production_id : String
  pub hours : Hours
  pub created_at : ℕ
  pub updated_at : ℕ

-- One insert of `preserveGpuUsageOnDelete` by its answer; `left` are the attempts after it.
unfoldable pub preserve_attempts :
    ℕ → (ℕ → Option Ledger) → (ℕ → Write) → String → Hours → ℕ → ℕ → Option Ledger
preserve_attempts zero priors writes p settled now attempt = none
preserve_attempts (suc left) priors writes p settled now attempt =
    let again = preserve_attempts left priors writes p settled now (attempt + 1) in
    let ledger : Ledger = record {
      production_id = p;
      hours = settled;
      created_at = elim (priors attempt) [ none ↦ now | some prior ↦ prior.created_at ];
      updated_at = now;
    } in
    elim (writes attempt) [
      | stored ↦ some ledger
      | conflict ↦ if ltb attempt 2 then again else none
      | failed ↦ none
    ]

-- The ledger that is stored, if one is. `priors` is what the read of each attempt finds.
unfoldable pub preserve_gpu_usage_on_delete :
    GpuConfig → (ℕ → Option Ledger) → (ℕ → Write) → ProductionDoc → ℕ → Option Ledger
unfolding preserve_attempts ledger_hours
preserve_gpu_usage_on_delete c priors writes doc now = elim (ledger_hours c doc now) [
  | none ↦ none
  | some settled ↦ preserve_attempts 3 priors writes doc.id settled now 0
]

unfoldable pub merge_resource_hours : List (String × Hours) → String → Hours → List (String × Hours)
merge_resource_hours by_resource resource hours =
    if is_empty hours
    then by_resource
    else insert resource
        (elim (lookup resource by_resource) [
          | none ↦ hours
          | some existing ↦ merge_hours existing hours
        ])
        by_resource

unfoldable pub with_productions :
    GpuConfig → ℕ → List ProductionDoc → List (String × Hours) → List (String × Hours)
unfolding merge_resource_hours
with_productions c now [] m = m
with_productions c now (doc ∷ docs) m =
    with_productions c now docs
      (merge_resource_hours m doc.id (hours_for_production c doc now false))

unfoldable pub with_ledgers :
    GpuConfig → ℕ → List Ledger → List (String × Hours) → List (String × Hours)
unfolding merge_resource_hours
with_ledgers c now [] m = m
with_ledgers c now (l ∷ ledgers) m =
    with_ledgers c now ledgers
      (merge_resource_hours m l.production_id (prune_expired_hours c.retention_hours l.hours now))

-- The hours of one resource that a response may carry: closed ones, after the cursor.
unfoldable pub closed_hours : ℕ → Option ℕ → Hours → Hours
unfolding start_of_utc_hour
closed_hours now since hours =
    keep
      (λ b.
        ltb b.0 (start_of_utc_hour now)
        && elim since as (λ x. Bool) [ none ↦ true | some cursor ↦ ltb cursor b.0 ])
      hours

-- The response before its order and its labels; a resource is named by the production's id.
unfoldable pub build_gpu_usage_response :
    GpuConfig → ℕ → Option ℕ → List ProductionDoc → List Ledger → List (String × Hours)
unfolding with_productions with_ledgers closed_hours
build_gpu_usage_response c now since docs ledgers =
    if not c.enabled
    then []
    else map (λ e. (e.0, closed_hours now since e.1))
        (with_ledgers c now ledgers (with_productions c now docs []))
