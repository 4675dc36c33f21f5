-- ===== src/Mp4/Movie.antt =====
-- src/lib/mp4-duration.ts: `readMvhd`, `readMehd`, `readMdhdTimescale`, `readTkhdTrackId` and
-- `readMoov`. Quotients are rounded to the nearest number, a half upwards, over exact naturals.
use open_live.Prelude.{
  ℕ, ◌+◌, ◌*◌, ◌/◌, Bool, List, [], ◌∷◌, Option, none, some, is_some, get_or, or_kept,
  if◌then◌else◌, ltb, ◌==◌, nat_eq, ◌||◌, not,
}
use open_live.Prelude.Dict.{lookup, insert}
use open_live.Mp4.{
  byte_at, u32_at, u64_at, Box, boxes, child, mvhd, mvex, mehd, trak, tkhd, mdia, mdhd, trex,
}

-- A reader returns a value, returns `undefined`, or throws.
pub data Read {ℓ} (A : Type ℓ) : Type ℓ where
  value : A → Read A
  undefined : Read A
  thrown : Read A

infixl 5 ◌>>=◌
abbrev pub ◌>>=◌ {ℓ κ} : {A : Type ℓ} {B : Type κ} → Read A → (A → Read B) → Read B
value a >>= f = f a
undefined >>= f = undefined
thrown >>= f = thrown

-- A read of the buffer, which throws outside it.
abbrev pub read {ℓ} : {A : Type ℓ} → Option A → Read A
read none = thrown
read (some a) = value a

-- An early return of `undefined`.
abbrev pub unless {ℓ} : {A : Type ℓ} → Bool → Read A → Read A
unless stop rest = if stop then undefined else rest

pub record Mvhd : Type 0 where
  pub timescale : ℕ
  pub duration : ℕ

abbrev mvhd_words : Option ℕ → Option ℕ → Read Mvhd
mvhd_words timescale duration = do
  t ← read timescale
  d ← read duration
  value (record { timescale = t; duration = d })

-- The fields after version and flags are eight bytes wide in version 1, except the timescale.
abbrev mvhd_fields : List ℕ → Box → ℕ → Read Mvhd
mvhd_fields buf box version =
    if version == 1
    then (unless (ltb box.finish (box.start + 32))
        (mvhd_words (u32_at buf (box.start + 20)) (u64_at buf (box.start + 24))))
    else (unless (ltb box.finish (box.start + 20))
        (mvhd_words (u32_at buf (box.start + 12)) (u32_at buf (box.start + 16))))

unfoldable pub read_mvhd : List ℕ → Box → Read Mvhd
unfolding byte_at u32_at u64_at
read_mvhd buf box = read (byte_at buf box.start) >>= mvhd_fields buf box

abbrev mehd_field : List ℕ → Box → ℕ → Read ℕ
mehd_field buf box version =
    if version == 1
    then unless (ltb box.finish (box.start + 12)) (read (u64_at buf (box.start + 4)))
    else unless (ltb box.finish (box.start + 8)) (read (u32_at buf (box.start + 4)))

unfoldable pub read_mehd : List ℕ → Box → Read ℕ
unfolding byte_at u32_at u64_at
read_mehd buf box = read (byte_at buf box.start) >>= mehd_field buf box

abbrev id_field : List ℕ → Box → ℕ → Read ℕ
id_field buf box version =
    let at = if version == 1 then box.start + 20 else box.start + 12 in
    unless (ltb box.finish (at + 4)) (read (u32_at buf at))

unfoldable pub read_mdhd_timescale : List ℕ → Box → Read ℕ
unfolding byte_at u32_at
read_mdhd_timescale buf box =
    unless (ltb box.finish (box.start + 1)) (read (byte_at buf box.start) >>= id_field buf box)

unfoldable pub read_tkhd_track_id : List ℕ → Box → Read ℕ
unfolding byte_at u32_at
read_tkhd_track_id buf box =
    unless (ltb box.finish (box.start + 1)) (read (byte_at buf box.start) >>= id_field buf box)

-- `x ? f(x) : undefined`, with the outcome as an option. A throw goes on.
abbrev in_box : (Box → Read ℕ) → Option Box → Read (Option ℕ)
in_box f none = value none
in_box f (some box) = elim (f box) [
  | value n ↦ value (some n)
  | undefined ↦ value none
  | thrown ↦ thrown
]

pub record Track : Type 0 where
  pub timescale : Option ℕ
  pub default_sample_duration : Option ℕ

pub record MoovInfo : Type 0 where
  pub header_duration_ms : Option ℕ
  pub fragmented : Bool
  pub tracks : List (ℕ × Track)

abbrev no_track : Track
no_track = record { timescale = none; default_sample_duration = none }

abbrev pub round_ms : ℕ → ℕ → ℕ
round_ms ticks timescale = (2 * (ticks * 1000) + timescale) / (2 * timescale)

-- `timescale ? { timescale } : {}`: neither `undefined` nor 0.
abbrev truthy : Option ℕ → Option ℕ
truthy none = none
truthy (some n) = if n == 0 then none else some n

unfoldable pub with_timescale : ℕ → Option ℕ → List (ℕ × Track) → List (ℕ × Track)
with_timescale id timescale tracks =
    let old = get_or (lookup id tracks) no_track in
    let new : Track = record old { timescale = or_kept (truthy timescale) old.timescale } in
    insert id new tracks

abbrev in_mdia : List ℕ → Option Box → Option Box
in_mdia buf none = none
in_mdia buf (some mdia) = child buf mdia mdhd

abbrev timed_track : List ℕ → Box → List (ℕ × Track) → Option ℕ → Read (List (ℕ × Track))
timed_track buf box tracks none = value tracks
timed_track buf box tracks (some id) = do
  timescale ← in_box (read_mdhd_timescale buf) (in_mdia buf (child buf box mdia))
  value (with_timescale id timescale tracks)

abbrev trak_step : List ℕ → Box → List (ℕ × Track) → Read (List (ℕ × Track))
trak_step buf box tracks =
    in_box (read_tkhd_track_id buf) (child buf box tkhd) >>= timed_track buf box tracks

unfoldable pub add_traks : List ℕ → List Box → List (ℕ × Track) → Read (List (ℕ × Track))
unfolding read_mdhd_timescale read_tkhd_track_id with_timescale child
add_traks buf [] tracks = value tracks
add_traks buf (box ∷ rest) tracks =
    (if box.kind == trak then trak_step buf box tracks else value tracks) >>= add_traks buf rest

abbrev default_words : Option ℕ → Option ℕ → List (ℕ × Track) → Read (List (ℕ × Track))
default_words id duration tracks = do
  track_id ← read id
  ticks ← read duration
  let old = get_or (lookup track_id tracks) no_track
  let new : Track = record old { default_sample_duration = some ticks }
  value (insert track_id new tracks)

unfoldable pub add_trexes : List ℕ → List Box → List (ℕ × Track) → Read (List (ℕ × Track))
unfolding u32_at
add_trexes buf [] tracks = value tracks
add_trexes buf (box ∷ rest) tracks =
    (if not (box.kind == trex) || ltb box.finish (box.start + 16)
      then value tracks
      else default_words (u32_at buf (box.start + 4)) (u32_at buf (box.start + 12)) tracks)
    >>= add_trexes buf rest

abbrev defaults_of : List ℕ → Option Box → List (ℕ × Track) → Read (List (ℕ × Track))
defaults_of buf none tracks = value tracks
defaults_of buf (some box) tracks = add_trexes buf (boxes buf box.start box.finish) tracks

abbrev in_mvex : List ℕ → Option Box → Option Box
in_mvex buf none = none
in_mvex buf (some box) = child buf box mehd

-- 0, or all ones for "unknown", sends a fragmented file to its movie-extends header.
unfoldable pub total_duration : List ℕ → Option Box → ℕ → Read ℕ
unfolding read_mehd child
total_duration buf extends duration =
    if duration == 0 || duration == 0xffffffff
    then (in_box (read_mehd buf) (in_mvex buf extends) >>= λ d. value (get_or d 0))
    else value duration

abbrev header_ms : ℕ → ℕ → Option ℕ
header_ms duration timescale = if duration == 0 then none else some (round_ms duration timescale)

abbrev moov_tracks : List ℕ → Box → Option Box → ℕ → ℕ → Read MoovInfo
moov_tracks buf box extends timescale duration = do
  timed ← add_traks buf (boxes buf box.start box.finish) []
  tracks ← defaults_of buf extends timed
  let info : MoovInfo = record {
    header_duration_ms = header_ms duration timescale;
    fragmented = is_some extends;
    tracks = tracks;
  }
  value info

abbrev moov_header : List ℕ → Box → Option Box → Mvhd → Read MoovInfo
moov_header buf box extends header =
    unless (header.timescale == 0)
      (total_duration buf extends header.duration >>= moov_tracks buf box extends header.timescale)

abbrev moov_mvhd : List ℕ → Box → Option Box → Read MoovInfo
moov_mvhd buf box none = undefined
moov_mvhd buf box (some header) =
    unless (ltb header.finish (header.start + 1))
      (read_mvhd buf header >>= moov_header buf box (child buf box mvex))

unfoldable pub read_moov : List ℕ → Box → Read MoovInfo
unfolding read_mvhd total_duration add_traks add_trexes child boxes
read_moov buf box = moov_mvhd buf box (child buf box mvhd)
