-- ===== src/Mp4/Fragments.antt =====
-- src/lib/mp4-duration.ts: `FragmentTotals`, `addMoof`, `fragmentDurationMs` and `mp4DurationMs`.
-- A test of a flag bit is a quotient and a remainder. `addMoof` changes its totals in place; where
-- it returns false the caller gives up, so the totals of that case are left out: `none`.
use open_live.Prelude.{
  ℕ, ◌+◌, ◌*◌, ◌/◌, ◌%◌, zero, suc, Bool, true, false, List, [], ◌∷◌, ◌++◌, map, Option, none, some,
  get_or, if◌then◌else◌, ltb, ◌==◌, nat_eq, ◌&&◌, length,
}
use open_live.Prelude.Dict.{lookup, insert, add}
use open_live.Mp4.{u32_at, Box, boxes, child, first_of, moov, moof, traf, tfhd, trun}
use open_live.Mp4.Movie.{Read, Track, MoovInfo, read_moov, round_ms}
use open_live.Mp4.Movie.Read.{value, undefined, thrown}

pub record Totals : Type 0 where
  pub ticks : List (ℕ × ℕ)
  pub samples_with_trex_default : List (ℕ × ℕ)

abbrev pub new_fragment_totals : Totals
new_fragment_totals = record { ticks = []; samples_with_trex_default = [] }

unfoldable pub add_to : List (ℕ × ℕ) → ℕ → ℕ → List (ℕ × ℕ)
add_to m key n = insert key (get_or (lookup key m) 0 + n) m

abbrev bit : ℕ → ℕ → Bool
bit flags n = flags / n % 2 == 1

-- The duration fields of `count` samples, `stride` bytes apart.
unfoldable pub sum_samples : List ℕ → ℕ → ℕ → ℕ → Option ℕ
unfolding u32_at
sum_samples buf zero stride pos = some 0
sum_samples buf (suc count) stride pos = elim (u32_at buf pos) [
  | none ↦ none
  | some d ↦ elim (sum_samples buf count stride (pos + stride)) [
    | none ↦ none
    | some n ↦ some (d + n)
  ]
]

abbrev ones : Bool → ℕ
ones b = if b then 1 else 0

unfoldable pub sample_stride : ℕ → ℕ
sample_stride flags =
    4
    * (ones (bit flags 0x100)
        + ones (bit flags 0x200)
        + ones (bit flags 0x400)
        + ones (bit flags 0x800))

unfoldable pub first_sample : ℕ → ℕ → ℕ
first_sample start flags =
    start + 8 + (if bit flags 0x01 then 4 else 0) + (if bit flags 0x04 then 4 else 0)

-- A run with no duration for each sample: the default of its track fragment, or that of `trex`.
abbrev untimed_run : ℕ → Option ℕ → ℕ → Totals → Totals
untimed_run id none count totals = record totals {
  samples_with_trex_default = add_to totals.samples_with_trex_default id count;
}
untimed_run id (some d) count totals = record totals { ticks = add_to totals.ticks id (count * d) }

abbrev summed_run : ℕ → Totals → Option ℕ → Option Totals
summed_run id totals none = none
summed_run id totals (some sum) = some (record totals { ticks = add_to totals.ticks id sum })

abbrev timed_run : List ℕ → Box → ℕ → ℕ → ℕ → Totals → Option Totals
timed_run buf run id flags count totals =
    let pos = first_sample run.start flags in
    if ltb run.finish (pos + count * sample_stride flags)
    then none
    else summed_run id totals (sum_samples buf count (sample_stride flags) pos)

abbrev run_words : List ℕ → Box → ℕ → Option ℕ → Totals → Option ℕ → Option ℕ → Option Totals
run_words buf run id default_duration totals (some flags) (some count) =
    if bit flags 0x100
    then timed_run buf run id flags count totals
    else some (untimed_run id default_duration count totals)
run_words buf run id default_duration totals flags count = none

unfoldable pub add_run : List ℕ → Box → ℕ → Option ℕ → Totals → Option Totals
unfolding u32_at add_to sum_samples sample_stride first_sample
add_run buf run id default_duration totals =
    if ltb run.finish (run.start + 8)
    then none
    else run_words buf run id default_duration totals (u32_at buf run.start)
        (u32_at buf (run.start + 4))

abbrev then_runs : (Totals → Option Totals) → Option Totals → Option Totals
then_runs later none = none
then_runs later (some totals) = later totals

unfoldable pub add_runs : List ℕ → List Box → ℕ → Option ℕ → Totals → Option Totals
unfolding add_run
add_runs buf [] id default_duration totals = some totals
add_runs buf (box ∷ rest) id default_duration totals =
    then_runs (add_runs buf rest id default_duration)
      (if box.kind == trun then add_run buf box id default_duration totals else some totals)

-- `some none` where the header gives no default duration, `none` where it is cut off.
abbrev default_word : Option ℕ → Option (Option ℕ)
default_word none = none
default_word (some d) = some (some d)

unfoldable pub header_default : List ℕ → Box → ℕ → Option (Option ℕ)
unfolding u32_at
header_default buf header flags =
    let at =
      header.start + 8 + (if bit flags 0x01 then 8 else 0) + (if bit flags 0x02 then 4 else 0) in
    if bit flags 0x08
    then (if ltb header.finish (at + 4) then none else default_word (u32_at buf at))
    else some none

abbrev traf_runs : List ℕ → Box → ℕ → Totals → Option (Option ℕ) → Option Totals
traf_runs buf fragment id totals none = none
traf_runs buf fragment id totals (some default_duration) =
    add_runs buf (boxes buf fragment.start fragment.finish) id default_duration totals

abbrev traf_words : List ℕ → Box → Box → Totals → Option ℕ → Option ℕ → Option Totals
traf_words buf fragment header totals (some flags) (some id) =
    traf_runs buf fragment id totals (header_default buf header flags)
traf_words buf fragment header totals flags id = none

abbrev traf_header : List ℕ → Box → Totals → Option Box → Option Totals
traf_header buf fragment totals none = none
traf_header buf fragment totals (some header) =
    if ltb header.finish (header.start + 8)
    then none
    else traf_words buf fragment header totals (u32_at buf header.start)
        (u32_at buf (header.start + 4))

unfoldable pub add_trafs : List ℕ → List Box → Totals → Option Totals
unfolding u32_at add_runs header_default child
add_trafs buf [] totals = some totals
add_trafs buf (box ∷ rest) totals =
    then_runs (add_trafs buf rest)
      (if box.kind == traf then traf_header buf box totals (child buf box tfhd) else some totals)

unfoldable pub add_moof : List ℕ → Box → Totals → Option Totals
unfolding add_trafs boxes
add_moof buf box totals = add_trafs buf (boxes buf box.start box.finish) totals

-- The ticks of a track, `none` where a sample needs a default that `moov` does not give.
unfoldable pub track_ticks : Option ℕ → ℕ → ℕ → Option ℕ
track_ticks default_duration ticks pending =
    if pending == 0
    then some ticks
    else elim default_duration [ none ↦ none | some d ↦ some (ticks + pending * d) ]

abbrev rounded : ℕ → Option ℕ → Option ℕ
rounded timescale none = none
rounded timescale (some ticks) = some (round_ms ticks timescale)

abbrev scaled : Totals → ℕ → Track → Option ℕ → Option ℕ
scaled totals id track none = none
scaled totals id track (some timescale) =
    if timescale == 0
    then none
    else rounded timescale (
        track_ticks track.default_sample_duration (get_or (lookup id totals.ticks) 0)
          (get_or (lookup id totals.samples_with_trex_default) 0))

abbrev found_ms : Totals → ℕ → Option Track → Option ℕ
found_ms totals id none = none
found_ms totals id (some track) = scaled totals id track track.timescale

-- The time of one track, where it can be told.
unfoldable pub track_ms : MoovInfo → Totals → ℕ → Option ℕ
unfolding track_ticks
track_ms info totals id = found_ms totals id (lookup id info.tracks)

abbrev longer : Option ℕ → Option ℕ → Option ℕ
longer longest none = longest
longer none (some ms) = if ltb 0 ms then some ms else none
longer (some most) (some ms) = if ltb 0 ms && ltb most ms then some ms else some most

unfoldable pub longest_of : MoovInfo → Totals → List ℕ → Option ℕ → Option ℕ
unfolding track_ms
longest_of info totals [] longest = longest
longest_of info totals (id ∷ ids) longest =
    longest_of info totals ids (longer longest (track_ms info totals id))

abbrev keys : List (ℕ × ℕ) → List ℕ
keys m = map (λ e. e.0) m

abbrev as_set : List ℕ → List ℕ → List ℕ
as_set seen [] = seen
as_set seen (k ∷ ks) = as_set (add k seen) ks

unfoldable pub fragment_duration_ms : MoovInfo → Totals → Option ℕ
unfolding longest_of
fragment_duration_ms info totals =
    longest_of info totals (as_set [] (keys totals.ticks ++ keys totals.samples_with_trex_default))
      none

unfoldable pub add_moofs : List ℕ → List Box → Totals → Option Totals
unfolding add_moof
add_moofs buf [] totals = some totals
add_moofs buf (box ∷ rest) totals =
    then_runs (add_moofs buf rest)
      (if box.kind == moof then add_moof buf box totals else some totals)

abbrev of_fragments : MoovInfo → Option Totals → Option ℕ
of_fragments info none = none
of_fragments info (some totals) = fragment_duration_ms info totals

abbrev timed_by : List ℕ → MoovInfo → Option ℕ → Bool → Option ℕ
timed_by buf info (some ms) fragmented = some ms
timed_by buf info none false = none
timed_by buf info none true =
    of_fragments info (add_moofs buf (boxes buf 0 (length buf)) new_fragment_totals)

abbrev informed : List ℕ → Read MoovInfo → Option ℕ
informed buf (value info) = timed_by buf info info.header_duration_ms info.fragmented
informed buf undefined = none
informed buf thrown = none

abbrev in_moov : List ℕ → Option Box → Option ℕ
in_moov buf none = none
in_moov buf (some box) = informed buf (read_moov buf box)

unfoldable pub mp4_duration_ms : List ℕ → Option ℕ
unfolding read_moov add_moofs fragment_duration_ms boxes first_of
mp4_duration_ms buf = in_moov buf (first_of moov (boxes buf 0 (length buf)))
