-- ===== src/Gpu/Sweep.antt =====
-- The attempts of the settle sweep and the accrual floor in src/services/gpu-usage.ts.
use open_live.Prelude.{
  ℕ, zero, suc, ◌+◌, ◌-◌, ◌*◌, ◌%◌, ◌≤◌, ◌<◌, max, Option, none, some, if◌then◌else◌, get_or, ltb,
  nat_eq, ◌≡◌, refl, ◌∙◌, arith,
}
use native.Mathlib.Decide.{ℕ_discrete}
use open_live.Prelude.Dict.{lookup}
use open_live.Production.{ProductionDoc}
use open_live.Gpu.Buckets.{
  Hours, hour_ms, start_of_utc_hour, compute_hour_buckets, accrual_start, overlap_seconds,
}
use open_live.Gpu.Spec.{bucket_from, lookup-compute_hour_buckets}
use open_live.Gpu.Shares.{Settled, settle_doc-Settled}
use open_live.Gpu.Settle.{
  GpuConfig, settle_doc, Write, stored, conflict, failed, settle_attempts, settle_one_production,
}

-- A stored settlement: the attempt that stored it, within three, settled the document that this
-- same attempt had read, and every attempt before it was refused by a conflict.
pub record Stored (c : GpuConfig) (now : ℕ) (reads : ℕ → Option ProductionDoc) (writes : ℕ → Write)
    (from : ℕ) (written : ProductionDoc) : Type 0 where
  pub at : ℕ
  pub doc : ProductionDoc
  pub in_range : (from ≤ at) × (at < 3)
  pub read : reads at ≡ some doc
  pub settled : Settled c now doc written
  pub answered : writes at ≡ stored
  pub refused : (j : ℕ) → from ≤ j → j < at → writes j ≡ conflict

module _ (c : GpuConfig) (now : ℕ) (reads : ℕ → Option ProductionDoc) (writes : ℕ → Write) where
  -- The attempts after one that a conflict refused.
  later-Stored :
      (attempt : ℕ) (written : ProductionDoc)
      → writes attempt ≡ conflict
      → Stored c now reads writes (attempt + 1) written
      → Stored c now reads writes attempt written
  later-Stored attempt written w rest = record {
    at = rest.at;
    doc = rest.doc;
    in_range = (omega (arith, rest.in_range.0), rest.in_range.1);
    read = rest.read;
    settled = rest.settled;
    answered = rest.answered;
    refused = λ j le lt. elim (ℕ_discrete attempt j) [
      | yes e ↦ rw (← e) w
      | no ne ↦ rest.refused j (omega arith) lt
    ];
  }

  here-Stored :
      (attempt : ℕ) (doc written : ProductionDoc)
      → attempt < 3
      → reads attempt ≡ some doc
      → settle_doc c doc now ≡ some written
      → writes attempt ≡ stored
      → Stored c now reads writes attempt written
  here-Stored attempt doc written lt r s w = record {
    at = attempt;
    doc = doc;
    in_range = (omega arith, lt);
    read = r;
    settled = settle_doc-Settled c now doc written s;
    answered = w;
    refused = λ j le before. absurd (omega arith);
  }

  settle_attempts-Stored :
      (left attempt : ℕ) (written : ProductionDoc)
      → attempt + left ≡ 3
      → settle_attempts left c now reads writes attempt ≡ some written
      → Stored c now reads writes attempt written
  unfolding settle_attempts
  settle_attempts-Stored zero attempt written fits e = cc
  settle_attempts-Stored (suc left) attempt written fits e =
      on_read (settle_attempts-Stored left (attempt + 1) written (omega arith)) (reads attempt) refl
    where
      Rest : Type 0
      Rest =
          settle_attempts left c now reads writes (attempt + 1) ≡ some written
          → Stored c now reads writes (attempt + 1) written

      on_write :
          Rest
          → (doc d : ProductionDoc) (w : Write) → reads attempt ≡ some doc
          → settle_doc c doc now ≡ some d
          → writes attempt ≡ w
          → Stored c now reads writes attempt written
      on_write rest doc d stored r s w =
          let same : some d ≡ some written = rw (settle_attempts, r, s, w) at e in
          here-Stored attempt doc written (omega arith) r (s ∙ same) w
      on_write rest doc d conflict r s w =
          later-Stored attempt written w (rest (again (rw (settle_attempts, r, s, w) at e)))
        where
          again :
              (if ltb attempt 2
                  then settle_attempts left c now reads writes (attempt + 1)
                  else none)
                ≡ some written
              → settle_attempts left c now reads writes (attempt + 1) ≡ some written
          again f = ground arith
      on_write rest doc d failed r s w =
          let bad : none ≡ some written = rw (settle_attempts, r, s, w) at e in cc

      on_settle :
          Rest
          → (doc : ProductionDoc) (o : Option ProductionDoc) → reads attempt ≡ some doc
          → settle_doc c doc now ≡ o
          → Stored c now reads writes attempt written
      on_settle rest doc none r s =
          let bad : none ≡ some written = rw (settle_attempts, r, s) at e in cc
      on_settle rest doc (some d) r s = on_write rest doc d (writes attempt) r s refl

      on_read :
          Rest
          → (o : Option ProductionDoc) → reads attempt ≡ o
          → Stored c now reads writes attempt written
      on_read rest none r = let bad : none ≡ some written = rw (settle_attempts, r) at e in cc
      on_read rest (some doc) r = on_settle rest doc (settle_doc c doc now) r refl

  -- A document that `settleOneProduction` stores is, in all fields but the GPU hours, the live one that
  -- its own attempt has read; it keeps that one's buckets within the retention window, and gives
  -- each hour without one its share of the closed hours since the activation or the accrual floor.
  -- Only conflicts lead to another attempt, and there are three.
  pub settle_one_production-Stored :
      (written : ProductionDoc)
      → settle_one_production c now reads writes ≡ some written
      → Stored c now reads writes 0 written
  unfolding settle_one_production
  settle_one_production-Stored written e = settle_attempts-Stored 3 0 written (omega arith) e

-- Time before metering was enabled is not charged: the bucket of an hour has at most the seconds,
-- rounded, from then to the end of the hour, and none where the hour ends by then.
pub accrual_floor-lookup :
    (floor a e : ℕ) (existing : Hours) (k : ℕ)
    → k % hour_ms ≡ 0
    → get_or (lookup k (compute_hour_buckets (accrual_start (some floor) a) e existing)) 0 * 1000
      ≤ (k + hour_ms - floor) + 500
unfolding bucket_from overlap_seconds accrual_start start_of_utc_hour
accrual_floor-lookup floor a e existing k ak =
    ground (arith, lookup-compute_hour_buckets (max a floor) e existing k ak)
