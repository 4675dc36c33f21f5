-- ===== src/Recordings.antt =====
-- src/lib/recording-parts.ts: the start and the end of uploaded recording parts. A file name is given
-- by the session stem and the part index that `PART_NAME` reads from it, if it reads them. Times are
-- milliseconds.
use open_live.Prelude.{
  ℕ, zero, suc, ◌+◌, ◌*◌, String, Bool, false, ◌&&◌, List, [], ◌∷◌, Option, none, some, get_or,
  or_kept, if◌then◌else◌, map, nat_eq, string_eq, ◌==◌,
}

pub record PartName : Type 0 where
  pub stem : String
  pub index : ℕ

pub record Segment : Type 0 where
  pub part : Option PartName
  pub started_at : Option ℕ
  pub duration_ms : Option ℕ

pub record PartTiming : Type 0 where
  pub started_at : Option ℕ
  pub ended_at : Option ℕ

-- The duration that the first loop notes of one segment for a part.
abbrev is_part : String → ℕ → Option PartName → Bool
is_part stem index none = false
is_part stem index (some p) = p.stem == stem && p.index == index

unfoldable pub noted_duration : String → ℕ → Segment → Option ℕ
noted_duration stem index seg = elim seg.started_at [
  | none ↦ none
  | some _ ↦ if is_part stem index seg.part then seg.duration_ms else none
]

-- `durations.get(stem).get(index)`: a later segment of the same part takes the place of an earlier.
unfoldable pub known_duration : List Segment → String → ℕ → Option ℕ
unfolding noted_duration
known_duration [] stem index = none
known_duration (seg ∷ segments) stem index =
    or_kept (known_duration segments stem index) (noted_duration stem index seg)

-- The offset of a part: the durations of those before it.
unfoldable pub offset_ms : List Segment → ℕ → String → ℕ → ℕ
unfolding known_duration
offset_ms segments fallback_ms stem zero = 0
offset_ms segments fallback_ms stem (suc j) =
    offset_ms segments fallback_ms stem j + get_or (known_duration segments stem j) fallback_ms

abbrev ends : ℕ → Option ℕ → Option ℕ
ends start none = none
ends start (some duration) = some (start + duration)

unfoldable pub part_timing : List Segment → ℕ → Option PartName → Option ℕ → Option ℕ → PartTiming
unfolding offset_ms
part_timing segments fallback_ms part none duration = record { started_at = none; ended_at = none }
part_timing segments fallback_ms none (some started) duration = record {
  started_at = some started;
  ended_at = none;
}
part_timing segments fallback_ms (some p) (some started) duration =
    let start = started + offset_ms segments fallback_ms p.stem p.index in
    record { started_at = some start; ended_at = ends start duration }

unfoldable pub recording_part_timings : List Segment → ℕ → List PartTiming
unfolding part_timing
recording_part_timings segments segment_secs =
    map (λ seg. part_timing segments (segment_secs * 1000) seg.part seg.started_at seg.duration_ms)
      segments
