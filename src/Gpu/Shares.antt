-- ===== src/Gpu/Shares.antt =====
-- The seconds that src/services/gpu-usage.ts charges for an hour, against the time that was used.
use open_live.Prelude.{
  ℕ, ◌+◌, ◌-◌, ◌*◌, ◌%◌, ◌≤◌, ◌<◌, min, max, Bool, true, false, [], Option, none, some, is_some,
  if◌then◌else◌, get_or, nat_eq, ◌≡◌, refl, ◌∙◌, ap, sym, subst, arith, Bool-cases, Option-cases,
  ◌⊎◌, inl, inr,
}
use open_live.Prelude.Dict.{lookup}
use open_live.Production.{ProductionDoc, is_active}
use open_live.Gpu.Buckets.{
  Hours, hour_ms, start_of_utc_hour, overlap_seconds, compute_hour_buckets, accrual_start,
  prune_expired_hours, merge_hours,
}
use open_live.Gpu.Spec.{
  bucket_from, lookup-compute_hour_buckets, lookup-merge_hours, compute_hour_buckets-UniqueKeys,
}
use open_live.Gpu.Reads.{lookup-prune_expired_hours}
use open_live.Gpu.Settle.{GpuConfig, settle_doc}

-- How many milliseconds from `a` to `e` fall in the hour that starts at `k`.
abbrev pub met_ms : ℕ → ℕ → ℕ → ℕ
met_ms a e k = min e (k + hour_ms) - max a k

-- The seconds of an hour are the milliseconds to the nearest second, of a second at least and of an
-- hour at most; an hour has none where it has a bucket already or was met for less than half a
-- second.
abbrev pub IsShare : ℕ → ℕ → Hours → ℕ → Option ℕ → Type 0
IsShare a e existing k none = (is_some (lookup k existing) ≡ true) ⊎ (met_ms a e k < 500)
IsShare a e existing k (some s) =
    (lookup k existing ≡ none)
    × (0 < s)
    × (s ≤ 3600)
    × (s * 1000 ≤ met_ms a e k + 500)
    × (met_ms a e k < s * 1000 + 500)

bucket_from-IsShare :
    (a e : ℕ) (existing : Hours) (k : ℕ) (o : Option ℕ)
    → k % hour_ms ≡ 0
    → o ≡ bucket_from (start_of_utc_hour a) a e existing k
    → IsShare a e existing k o
unfolding bucket_from overlap_seconds start_of_utc_hour
bucket_from-IsShare a e existing k none ak same = elim (Bool-cases (is_some (lookup k existing))) [
  | inl has ↦ inl has
  | inr new ↦ inr (ground (arith, same, new))
]
bucket_from-IsShare a e existing k (some s) ak same = elim (Option-cases (lookup k existing)) [
  | inl new ↦
      (new, ground (arith, same), ground (arith, same), ground (arith, same), ground (arith, same))
  | inr (old, has) ↦ absurd (ground (arith, same, has))
]

-- For the start of an hour, `computeHourBuckets` over the time from `a` to `e` returns a bucket with
-- the milliseconds of that time in the hour, rounded to the nearest second, which is between 1 and
-- 3600; it returns none where the hour has a bucket already or holds less than half a second of it.
pub compute_hour_buckets-IsShare :
    (a e : ℕ) (existing : Hours) (k : ℕ)
    → k % hour_ms ≡ 0
    → IsShare a e existing k (lookup k (compute_hour_buckets a e existing))
compute_hour_buckets-IsShare a e existing k ak =
    bucket_from-IsShare a e existing k (lookup k (compute_hour_buckets a e existing)) ak
      (lookup-compute_hour_buckets a e existing k ak)

abbrev pub hours_of : ProductionDoc → Hours
hours_of doc = get_or doc.gpu_hours []

-- What a settlement at `now` makes of a document: the GPU hours alone change, the buckets within the
-- retention window stay, and an hour without one gets its share of the closed hours since `a`.
pub record Settled (c : GpuConfig) (now : ℕ) (doc written : ProductionDoc) : Type 0 where
  pub since : ℕ
  pub started : doc.activated_at ≡ some since
  pub live : is_active doc.status ≡ true
  pub others : written ≡ record doc { gpu_hours = written.gpu_hours }
  pub kept :
      (k s : ℕ)
      → k % hour_ms ≡ 0
      → now ≤ k + c.retention_hours * hour_ms
      → lookup k (hours_of doc) ≡ some s
      → lookup k (hours_of written) ≡ some s
  pub fresh :
      (k : ℕ)
      → k % hour_ms ≡ 0
      → lookup k (hours_of doc) ≡ none
      → IsShare
          (accrual_start c.accrual_floor_ms since)
          (start_of_utc_hour now)
          (hours_of doc)
          k
          (lookup k (hours_of written))

module _ (c : GpuConfig) (now : ℕ) (doc : ProductionDoc) (a : ℕ) where
  from : ℕ
  from = accrual_start c.accrual_floor_ms a

  new : Hours
  unfolding from
  new = compute_hour_buckets from (start_of_utc_hour now) (hours_of doc)

  pruned : Hours
  pruned = prune_expired_hours c.retention_hours (hours_of doc) now

  after : ProductionDoc
  unfolding new pruned
  after = record doc { gpu_hours = some (merge_hours pruned new) }

  merged-lookup :
      (k : ℕ)
      → lookup k (hours_of after)
        ≡ (if is_some (lookup k new) then lookup k new else lookup k pruned)
  unfolding after new
  merged-lookup k =
      lookup-merge_hours pruned new k
        (compute_hour_buckets-UniqueKeys from (start_of_utc_hour now) (hours_of doc))

  after-kept :
      (k s : ℕ)
      → k % hour_ms ≡ 0
      → now ≤ k + c.retention_hours * hour_ms
      → lookup k (hours_of doc) ≡ some s
      → lookup k (hours_of after) ≡ some s
  unfolding new pruned bucket_from
  after-kept k s ak recent old =
      merged-lookup k
      ∙ ground (
        arith,
        old,
        lookup-prune_expired_hours c.retention_hours (hours_of doc) now k,
        lookup-compute_hour_buckets from (start_of_utc_hour now) (hours_of doc) k ak,
      )

  after-fresh :
      (k : ℕ)
      → k % hour_ms ≡ 0
      → lookup k (hours_of doc) ≡ none
      → IsShare from (start_of_utc_hour now) (hours_of doc) k (lookup k (hours_of after))
  unfolding new pruned
  after-fresh k ak none_yet =
      let same : lookup k (hours_of after) ≡ lookup k new =
        merged-lookup k
        ∙ ground
            (arith, none_yet, lookup-prune_expired_hours c.retention_hours (hours_of doc) now k) in
      subst (IsShare from (start_of_utc_hour now) (hours_of doc) k) (sym same)
        (compute_hour_buckets-IsShare from (start_of_utc_hour now) (hours_of doc) k ak)

  after-Settled : doc.activated_at ≡ some a → is_active doc.status ≡ true → Settled c now doc after
  unfolding from after
  after-Settled started live = record {
    since = a;
    started = started;
    live = live;
    others = refl;
    kept = after-kept;
    fresh = after-fresh;
  }

  started-Settled :
      (written : ProductionDoc)
      → doc.activated_at ≡ some a
      → is_active doc.status ≡ true
      → settle_doc c doc now ≡ some written
      → Settled c now doc written
  unfolding settle_doc after new pruned from
  started-Settled written started live e = chosen _ (rw (settle_doc, live, started) at e)
    where
      chosen :
          (b : Bool) → (if b then none else some after) ≡ some written → Settled c now doc written
      chosen true h = cc
      chosen false h =
          subst (Settled c now doc) (ap (λ o. get_or o doc) h) (after-Settled started live)

pub settle_doc-Settled :
    (c : GpuConfig) (now : ℕ) (doc written : ProductionDoc)
    → settle_doc c doc now ≡ some written
    → Settled c now doc written
unfolding settle_doc
settle_doc-Settled c now doc written e = elim (Bool-cases (is_active doc.status)) [
  | inr off ↦ (let bad : none ≡ some written = rw (settle_doc, off) at e in cc)
  | inl live ↦ elim (Option-cases doc.activated_at) [
    | inl stopped ↦ (let bad : none ≡ some written = rw (settle_doc, live, stopped) at e in cc)
    | inr (a, started) ↦ started-Settled c now doc a written started live e
  ]
]
