-- ===== src/Gpu/Tests.antt =====
-- The theorems about src/services/gpu-usage.ts at a concrete production, and runs by evaluation.
use open_live.Prelude.{
  ℕ, true, false, [], ◌∷◌, some, nat_eq, ◌≡◌, refl, inr, if◌then◌else◌, arith, get_or,
}
use open_live.Prelude.Dict.{lookup, insert}
use open_live.Production.{ProductionDoc}
use open_live.Production.Samples.{live_doc}
use open_live.Gpu.Buckets.{
  start_of_utc_hour, compute_hour_buckets, bucket_loop, overlap_seconds, accrual_start,
  prune_expired_hours, merge_hours,
}
use open_live.Gpu.Settle.{
  GpuConfig, ledger_hours, settle_doc, Write, stored, conflict, settle_one_production,
  settle_attempts, hours_for_production,
}
use open_live.Gpu.Shares.{IsShare, compute_hour_buckets-IsShare}
use open_live.Gpu.Reads.{settle-invisible}
use open_live.Gpu.Ledger.{lookup-ledger}
use open_live.Gpu.Sweep.{Stored, settle_one_production-Stored}

abbrev metering : GpuConfig
metering = record { enabled = true; retention_hours = 48; accrual_floor_ms = some 0 }

-- The sweep runs 5 minutes into the fifth hour, a read comes an hour later.
abbrev swept : ℕ
swept = 14_700_000

abbrev read_at : ℕ
read_at = 18_300_000

compute_hour_buckets-IsShare_example :
    IsShare 7_800_000 swept [] 10_800_000
      (lookup 10_800_000 (compute_hour_buckets 7_800_000 swept []))
compute_hour_buckets-IsShare_example =
    compute_hour_buckets-IsShare 7_800_000 swept [] 10_800_000 refl

buckets :
    compute_hour_buckets 7_800_000 swept []
    ≡ (7_200_000, 3000) ∷ (10_800_000, 3600) ∷ (14_400_000, 300) ∷ []
unfolding compute_hour_buckets lookup bucket_loop start_of_utc_hour overlap_seconds
buckets = refl

settle-invisible_example :
    lookup 10_800_000 (
      hours_for_production metering
        (get_or (settle_doc metering live_doc swept) live_doc)
        read_at
        false)
    ≡ lookup 10_800_000 (hours_for_production metering live_doc read_at false)
settle-invisible_example =
    settle-invisible metering live_doc 7_800_000 swept read_at 10_800_000 refl refl refl
      (omega arith) (omega arith)

lookup-ledger_example :
    lookup 10_800_000 (get_or (ledger_hours metering live_doc swept) [])
    ≡ lookup 10_800_000 (hours_for_production metering live_doc swept false)
unfolding start_of_utc_hour
lookup-ledger_example =
    lookup-ledger metering live_doc swept 10_800_000 refl (inr refl) refl (omega arith)
      (omega arith)

-- The first insert meets a conflict.
abbrev once_refused : ℕ → Write
once_refused attempt = if nat_eq.beq attempt 0 then conflict else stored

abbrev settled_doc : ProductionDoc
settled_doc = record live_doc {
  gpu_hours = some ((3_600_000, 60) ∷ (7_200_000, 3000) ∷ (10_800_000, 3600) ∷ []);
}

settle_one_production-Stored_example :
    Stored metering swept (λ _. some live_doc) once_refused 0 settled_doc
unfolding settle_one_production settle_attempts settle_doc compute_hour_buckets bucket_loop lookup
    insert start_of_utc_hour overlap_seconds accrual_start prune_expired_hours merge_hours
settle_one_production-Stored_example =
    settle_one_production-Stored metering swept (λ _. some live_doc) once_refused settled_doc refl
