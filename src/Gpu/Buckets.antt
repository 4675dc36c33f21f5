-- ===== src/Gpu/Buckets.antt =====
-- src/services/gpu-usage.ts: the hour buckets of an interval, pruning and the accrual floor.
-- Times are milliseconds since 1970. An hour key stands for the instant that it prints, so that
-- `Date.parse` gives the key back; a `Record<string, number>` is a map from these to seconds.
use open_live.Prelude.{
  ℕ, zero, suc, ◌+◌, ◌-◌, ◌*◌, ◌/◌, ◌%◌, min, max, not, List, [], ◌∷◌, Option, none, some,
  if◌then◌else◌, ltb, leb, nat_eq, is_some, keep,
}
use open_live.Prelude.Dict.{lookup, insert}

abbrev pub hour_ms : ℕ
hour_ms = 3_600_000

abbrev pub Hours : Type 0
Hours = List (ℕ × ℕ)

unfoldable pub start_of_utc_hour : ℕ → ℕ
start_of_utc_hour ms = ms - (ms % hour_ms + hour_ms) % hour_ms

unfoldable pub iso_hour : ℕ → ℕ
unfolding start_of_utc_hour
iso_hour ms = start_of_utc_hour ms

-- `Math.round(ms / 1000)`
abbrev pub round_seconds : ℕ → ℕ
round_seconds ms = (ms + 500) / 1000

-- The seconds of the hour that starts at `h_start`, as the body of the loop computes them. The
-- overlap stops at 0 here, which the clamp does there.
unfoldable pub overlap_seconds : ℕ → ℕ → ℕ → ℕ
overlap_seconds activated_at end h_start =
    let h_end = h_start + hour_ms in
    let overlap_ms = min end h_end - max activated_at h_start in
    max 0 (min 3600 (round_seconds overlap_ms))

-- The loop of `computeHourBuckets`, with the rounds that it may make. Keys rise, so that a key that
-- is written stands before those of later rounds.
unfoldable pub bucket_loop : ℕ → ℕ → ℕ → Hours → ℕ → Hours
unfolding overlap_seconds
bucket_loop zero activated_at end existing h_start = []
bucket_loop (suc rounds) activated_at end existing h_start =
    let rest = bucket_loop rounds activated_at end existing (h_start + hour_ms) in
    let seconds = overlap_seconds activated_at end h_start in
    if not (ltb h_start end)
    then []
    else if is_some (lookup h_start existing)
    then rest
    else if ltb 0 seconds
    then (h_start, seconds) ∷ rest
    else rest

-- One round for each hour that begins before the end.
unfoldable pub compute_hour_buckets : ℕ → ℕ → Hours → Hours
unfolding bucket_loop start_of_utc_hour
compute_hour_buckets activated_at end existing =
    if leb end activated_at
    then []
    else bucket_loop (end / hour_ms + 1) activated_at end existing (start_of_utc_hour activated_at)

-- `max(activatedAt, accrualFloorMs)`, where `null` is no floor.
unfoldable pub accrual_start : Option ℕ → ℕ → ℕ
accrual_start none activated_at = activated_at
accrual_start (some floor) activated_at = max activated_at floor

-- `t >= now - retention`, with the subtraction moved over.
unfoldable pub prune_expired_hours : ℕ → Hours → ℕ → Hours
prune_expired_hours retention_hours hours now =
    keep (λ b. leb now (b.0 + retention_hours * hour_ms)) hours

-- `{ ...existing, ...fresh }`
unfoldable pub merge_hours : Hours → Hours → Hours
unfolding insert
merge_hours existing [] = existing
merge_hours existing ((k, s) ∷ fresh) = merge_hours (insert k s existing) fresh
