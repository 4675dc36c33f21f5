-- ===== src/Mp4/Scanner.antt =====
-- src/lib/mp4-duration.ts: `Mp4DurationScanner`, which reads the duration from chunks of the file.
-- `pos` changes only when `push` is done with a chunk, so the fields that its loop changes are a
-- record of their own. The header buffer is the list of the bytes collected in it, and a capture
-- the list of the bytes filled in so far, with the size that was allocated for them.
use open_live.Prelude.{
  ℕ, ◌+◌, ◌-◌, zero, suc, min, Bool, true, false, List, [], ◌∷◌, ◌++◌, Option, none, some, get_or,
  if◌then◌else◌, ltb, leb, ◌==◌, nat_eq, ◌||◌, ◌&&◌, not, length,
}
use open_live.Mp4.{u32_at, u64_at, max_safe_integer, Box, boxes, moov, moof}
use open_live.Mp4.Movie.{Read, MoovInfo, read_moov}
use open_live.Mp4.Movie.Read.{value, undefined, thrown}
use open_live.Mp4.Fragments.{Totals, new_fragment_totals, add_moof, fragment_duration_ms}

-- The arguments of the constructor.
pub record Limits : Type 0 where
  pub max_moov_bytes : ℕ
  pub max_moof_bytes : ℕ

pub record Capture : Type 0 where
  pub kind : ℕ
  pub size : ℕ
  pub filled : List ℕ

pub record Machine : Type 0 where
  pub next_box : ℕ
  pub header : List ℕ
  pub capture : Option Capture
  pub stopped : Bool
  pub broken : Bool
  pub moov_info : Option MoovInfo
  pub result : Option ℕ
  pub fragments : Totals

pub record Mp4DurationScanner : Type 0 where
  pub pos : ℕ
  pub machine : Machine

abbrev pub new_scanner : Mp4DurationScanner
new_scanner = record {
  pos = 0;
  machine = record {
    next_box = 0;
    header = [];
    capture = none;
    stopped = false;
    broken = false;
    moov_info = none;
    result = none;
    fragments = new_fragment_totals;
  };
}

unfoldable pub stop : Machine → Machine
stop m = record m { stopped = true; capture = none }

unfoldable pub fail : Machine → Machine
unfolding stop
fail m = stop (record m { broken = true })

-- What `moov` tells: a duration, that there are fragments to sum, or neither.
unfoldable pub after_moov : MoovInfo → Option ℕ → Bool → Machine → Machine
unfolding stop
after_moov info (some ms) fragmented m = stop (record m { moov_info = some info; result = some ms })
after_moov info none true m = record m { moov_info = some info }
after_moov info none false m = stop (record m { moov_info = some info })

unfoldable pub keep_moov : Read MoovInfo → Machine → Machine
unfolding after_moov fail
keep_moov (value info) m = after_moov info info.header_duration_ms info.fragmented m
keep_moov undefined m = fail (record m { moov_info = none })
keep_moov thrown m = fail m

unfoldable pub keep_moof : Option Totals → Machine → Machine
unfolding fail
keep_moof (some totals) m = record m { fragments = totals }
keep_moof none m = fail m

unfoldable pub parse_boxes : ℕ → List ℕ → List Box → Machine → Machine
unfolding keep_moov keep_moof fail read_moov add_moof
parse_boxes kind buf [] m = fail m
parse_boxes kind buf (box ∷ rest) m =
    if kind == moov
    then keep_moov (read_moov buf box) m
    else keep_moof (add_moof buf box m.fragments) m

-- The captured box, from its own header on.
unfoldable pub parse_capture : Capture → Machine → Machine
unfolding parse_boxes boxes
parse_capture c m =
    parse_boxes c.kind c.filled (boxes c.filled 0 (length c.filled)) (record m { capture = none })

-- Bytes copied into the capture, which is parsed when it is full.
unfoldable pub fill : Capture → List ℕ → Machine → Machine
unfolding parse_capture
fill c bytes m =
    let grown : Capture = record c { filled = c.filled ++ bytes } in
    if length grown.filled == c.size
    then parse_capture grown m
    else record m { capture = some grown }

-- The first word of a header of eight bytes or more.
abbrev pub size_word : List ℕ → ℕ
size_word header = get_or (u32_at header 0) 0

abbrev pub limit_of : Limits → ℕ → ℕ
limit_of l kind = if kind == moov then l.max_moov_bytes else l.max_moof_bytes

-- A box of a known size, whose header ended at `header_end`.
unfoldable pub enter_box : Limits → ℕ → ℕ → List ℕ → ℕ → Machine → Machine
unfolding fail fill
enter_box l header_end kind header size m =
    let box_start = header_end - length header in
    if ltb size (length header)
    then fail m
    else if not (kind == moov || kind == moof)
    then record m { next_box = box_start + size }
    else if ltb (limit_of l kind) size
    then fail m
    else fill (record { kind = kind; size = size; filled = [] }) header
        (record m { next_box = box_start + size })

unfoldable pub on_size : Limits → ℕ → ℕ → List ℕ → ℕ → Machine → Machine
unfolding fail stop enter_box
on_size l header_end kind header size m =
    if size == 0
    then (if kind == moov || kind == moof then fail m else stop m)
    else enter_box l header_end kind header size m

unfoldable pub on_header : Limits → ℕ → Machine → Machine
unfolding fail on_size u32_at u64_at
on_header l header_end m =
    let cleared : Machine = record m { header = [] } in
    let kind = get_or (u32_at m.header 4) 0 in
    if size_word m.header == 1
    then (if ltb max_safe_integer (get_or (u64_at m.header 8) 0)
        then fail cleared
        else on_size l header_end kind m.header (get_or (u64_at m.header 8) 0) cleared)
    else on_size l header_end kind m.header (size_word m.header) cleared

unfoldable pub take_bytes : ℕ → List ℕ → List ℕ
take_bytes zero bs = []
take_bytes (suc n) [] = []
take_bytes (suc n) (b ∷ bs) = b ∷ take_bytes n bs

unfoldable pub drop_bytes : ℕ → List ℕ → List ℕ
drop_bytes zero bs = bs
drop_bytes (suc n) [] = []
drop_bytes (suc n) (b ∷ bs) = drop_bytes n bs

unfoldable pub header_need : List ℕ → ℕ
unfolding u32_at
header_need header = if leb 8 (length header) && size_word header == 1 then 16 else 8

-- The header after more of its bytes were collected.
unfoldable pub header_grown : Limits → ℕ → ℕ → Machine → Machine
unfolding on_header u32_at
header_grown l need header_end m =
    if ltb (length m.header) need
    then m
    else if need == 8 && size_word m.header == 1
    then m
    else on_header l header_end m

unfoldable pub read_header : Limits → ℕ → List ℕ → Machine → ℕ × Machine
unfolding header_need header_grown take_bytes
read_header l abs rest m =
    let need = header_need m.header in
    let taken = min (need - length m.header) (length rest) in
    (
      taken,
      header_grown l need (abs + taken) (record m { header = m.header ++ take_bytes taken rest }),
    )

-- One round of the loop of `push`: how many bytes it takes of those left, and what it does.
unfoldable pub round : Limits → ℕ → List ℕ → Option Capture → Machine → ℕ × Machine
unfolding fill take_bytes read_header
round l abs rest (some c) m =
    let taken = min (c.size - length c.filled) (length rest) in
    (taken, fill c (take_bytes taken rest) m)
round l abs rest none m =
    if ltb abs m.next_box
    then (min (m.next_box - abs) (length rest), m)
    else read_header l abs rest m

-- `abs` is the offset in the stream of the first byte left. Each round takes a byte, so the length
-- of the chunk is enough fuel.
unfoldable pub push_loop : Limits → ℕ → ℕ → List ℕ → Machine → Machine
unfolding round drop_bytes
push_loop l zero abs rest m = m
push_loop l (suc rounds) abs [] m = m
push_loop l (suc rounds) abs (b ∷ rest) m =
    let (taken, after) = round l abs (b ∷ rest) m.capture m in
    let later = push_loop l rounds (abs + taken) (drop_bytes taken (b ∷ rest)) after in
    if m.stopped then m else later

unfoldable pub push : Limits → List ℕ → Mp4DurationScanner → Mp4DurationScanner
unfolding push_loop
push l chunk s = record {
  pos = s.pos + length chunk;
  machine = push_loop l (length chunk) s.pos chunk s.machine;
}

unfoldable pub push_all : Limits → List (List ℕ) → Mp4DurationScanner → Mp4DurationScanner
unfolding push
push_all l [] s = s
push_all l (chunk ∷ chunks) s = push_all l chunks (push l chunk s)

abbrev summed : Option MoovInfo → Totals → Option ℕ
summed none totals = none
summed (some info) totals = if info.fragmented then fragment_duration_ms info totals else none

abbrev is_open : Option Capture → Bool
is_open none = false
is_open (some c) = true

abbrev finish_with : Option ℕ → Machine → Option ℕ
finish_with (some ms) m = some ms
finish_with none m = if m.broken || is_open m.capture then none else summed m.moov_info m.fragments

unfoldable pub finish : Mp4DurationScanner → Option ℕ
unfolding fragment_duration_ms
finish s = finish_with s.machine.result s.machine
