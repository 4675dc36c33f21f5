-- ===== src/Gpu/Spec.antt =====
-- What each bucket of `computeHourBuckets` in src/services/gpu-usage.ts holds.
use open_live.Prelude.{
  ℕ, zero, suc, ◌+◌, ◌-◌, ◌*◌, ◌/◌, ◌%◌, ◌≤◌, ◌<◌, max, not, ◌&&◌, [], ◌∷◌, Option, none, some,
  if◌then◌else◌, ltb, leb, nat_eq, is_some, ◌≡◌, refl, arith,
}
use open_live.Prelude.Dict.{lookup, insert, lookup-insert}
use open_live.Gpu.Buckets.{
  hour_ms, Hours, start_of_utc_hour, overlap_seconds, bucket_loop, compute_hour_buckets,
  merge_hours,
}

-- The bucket of the hour `k` when hours from `first` on are settled up to `end`.
unfoldable pub bucket_from : ℕ → ℕ → ℕ → Hours → ℕ → Option ℕ
bucket_from first activated_at end existing k =
    if leb first k
      && (ltb k end
          && (not (is_some (lookup k existing)) && ltb 0 (overlap_seconds activated_at end k)))
    then some (overlap_seconds activated_at end k)
    else none

lookup-bucket_loop :
    (rounds a e : ℕ) (existing : Hours) (h k : ℕ)
    → h % hour_ms ≡ 0
    → k % hour_ms ≡ 0
    → e ≤ h + rounds * hour_ms
    → lookup k (bucket_loop rounds a e existing h) ≡ bucket_from h a e existing k
unfolding bucket_loop lookup bucket_from
lookup-bucket_loop zero a e existing h k ah ak fuel = ground arith
lookup-bucket_loop (suc rounds) a e existing h k ah ak fuel =
    ground (arith, lookup-bucket_loop rounds a e existing (h + hour_ms) k)

-- What the loop returns for the start of an hour is what its body computes for that hour alone.
pub lookup-compute_hour_buckets :
    (a e : ℕ) (existing : Hours) (k : ℕ)
    → k % hour_ms ≡ 0
    → lookup k (compute_hour_buckets a e existing)
      ≡ bucket_from (start_of_utc_hour a) a e existing k
unfolding compute_hour_buckets lookup bucket_from
lookup-compute_hour_buckets a e existing k ak =
    ground (arith, lookup-bucket_loop (e / hour_ms + 1) a e existing (start_of_utc_hour a) k)

-- No key stands twice.
abbrev pub UniqueKeys : Hours → Type 0
UniqueKeys [] = Unit {0}
UniqueKeys ((k, s) ∷ m) = (lookup k m ≡ none) × UniqueKeys m

bucket_loop-UniqueKeys :
    (rounds a e : ℕ) (existing : Hours) (h : ℕ)
    → h % hour_ms ≡ 0
    → e ≤ h + rounds * hour_ms
    → UniqueKeys (bucket_loop rounds a e existing h)
unfolding bucket_loop bucket_from
bucket_loop-UniqueKeys zero a e existing h ah fuel = tt
bucket_loop-UniqueKeys (suc rounds) a e existing h ah fuel = ground (
  arith,
  bucket_loop-UniqueKeys rounds a e existing (h + hour_ms),
  lookup-bucket_loop rounds a e existing (h + hour_ms) h,
)

pub compute_hour_buckets-UniqueKeys :
    (a e : ℕ) (existing : Hours) → UniqueKeys (compute_hour_buckets a e existing)
unfolding compute_hour_buckets
compute_hour_buckets-UniqueKeys a e existing =
    ground (arith, bucket_loop-UniqueKeys (e / hour_ms + 1) a e existing (start_of_utc_hour a))

pub lookup-merge_hours :
    (existing fresh : Hours) (k : ℕ)
    → UniqueKeys fresh
    → lookup k (merge_hours existing fresh)
      ≡ (if is_some (lookup k fresh) then lookup k fresh else lookup k existing)
unfolding merge_hours lookup
lookup-merge_hours existing [] k u = refl
lookup-merge_hours existing ((j, s) ∷ fresh) k (new, u) = ground (
  arith,
  lookup-merge_hours (insert j s existing) fresh k u,
  lookup-insert j k s existing,
  nat_eq.beq_iff j k,
)

-- Settling a running production at the end of a closed hour and again at the same time or later
-- gives every hour the seconds that one settlement at the later time gives it.
pub settle_twice :
    (a e₁ e₂ : ℕ) (existing : Hours) (k : ℕ)
    → k % hour_ms ≡ 0
    → e₁ % hour_ms ≡ 0
    → e₁ ≤ e₂
    → let settled = merge_hours existing (compute_hour_buckets a e₁ existing) in
      lookup k (merge_hours settled (compute_hour_buckets a e₂ settled))
      ≡ lookup k (merge_hours existing (compute_hour_buckets a e₂ existing))
unfolding bucket_from overlap_seconds
settle_twice a e₁ e₂ existing k ak closed le =
    let fresh = compute_hour_buckets a e₁ existing in
    let settled = merge_hours existing fresh in
    ground (
      arith,
      lookup-merge_hours existing fresh k (compute_hour_buckets-UniqueKeys a e₁ existing),
      lookup-merge_hours settled (compute_hour_buckets a e₂ settled) k
          (compute_hour_buckets-UniqueKeys a e₂ settled),
      lookup-merge_hours existing (compute_hour_buckets a e₂ existing) k
          (compute_hour_buckets-UniqueKeys a e₂ existing),
      lookup-compute_hour_buckets a e₁ existing k ak,
      lookup-compute_hour_buckets a e₂ settled k ak,
      lookup-compute_hour_buckets a e₂ existing k ak,
    )

pub total : Hours → ℕ
total [] = 0
total ((k, s) ∷ m) = s + total m

total-bucket_loop :
    (rounds a e h : ℕ)
    → h % hour_ms ≡ 0
    → a % 1000 ≡ 0
    → e % 1000 ≡ 0
    → a < h + hour_ms
    → e ≤ h + rounds * hour_ms
    → total (bucket_loop rounds a e [] h) * 1000 ≡ e - max a h
unfolding bucket_loop total lookup
total-bucket_loop zero a e h ah aa ae first fuel = omega arith
total-bucket_loop (suc rounds) a e h ah aa ae first fuel =
    ground (arith, total-bucket_loop rounds a e (h + hour_ms))

-- No time is lost or counted twice: for an interval of whole seconds the buckets add up to it.
pub total-compute_hour_buckets :
    (a e : ℕ) → a % 1000 ≡ 0 → e % 1000 ≡ 0 → total (compute_hour_buckets a e []) * 1000 ≡ e - a
unfolding compute_hour_buckets total
total-compute_hour_buckets a e aa ae =
    ground (arith, total-bucket_loop (e / hour_ms + 1) a e (start_of_utc_hour a))
