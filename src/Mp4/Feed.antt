-- ===== src/Mp4/Feed.antt =====
-- src/lib/mp4-duration.ts: the scanner as a machine that reads one byte at a time, with no chunks.
-- It is the description that `push` is measured by.
use open_live.Prelude.{
  ℕ, ◌+◌, ◌-◌, ◌≤◌, ◌<◌, Bool, true, false, List, [], ◌∷◌, ◌++◌, Option, none, some, ◌≡◌, refl, inl,
  inr, arith, if◌then◌else◌, ltb, leb, ◌==◌, nat_eq, ◌||◌, ◌&&◌, not, length, length-append,
  Bool-cases, if-holds, get_or, subst,
}
use open_live.Mp4.{u32_at, Box, boxes, moov, moof, u64_at, max_safe_integer}
use open_live.Mp4.Movie.{Read, MoovInfo, read_moov}
use open_live.Mp4.Movie.Read.{value, undefined, thrown}
use open_live.Mp4.Fragments.{Totals, add_moof}
use open_live.Mp4.Scanner.{
  Limits, Capture, Machine, stop, fail, after_moov, keep_moov, keep_moof, parse_boxes,
  parse_capture, fill, size_word, enter_box, on_size, on_header,
}

-- A header has eight bytes, or sixteen where its first word is 1.
abbrev pub is_complete : List ℕ → Bool
is_complete header =
    leb 8 (length header) && (not (size_word header == 1) || leb 16 (length header))

abbrev pub collect : Limits → ℕ → List ℕ → Machine → Machine
collect l abs header m =
    let grown : Machine = record m { header = header } in
    if is_complete header then on_header l (abs + 1) grown else grown

abbrev pub feed_open : Limits → ℕ → ℕ → Option Capture → Machine → Machine
feed_open l abs b (some c) m = fill c (b ∷ []) m
feed_open l abs b none m = if ltb abs m.next_box then m else collect l abs (m.header ++ b ∷ []) m

-- One byte, at the offset `abs` of the stream.
unfoldable pub feed : Limits → ℕ → ℕ → Machine → Machine
unfolding u32_at fill on_header
feed l abs b m = if m.stopped then m else feed_open l abs b m.capture m

unfoldable pub feeds : Limits → ℕ → List ℕ → Machine → Machine
unfolding feed
feeds l abs [] m = m
feeds l abs (b ∷ bs) m = feeds l (abs + 1) bs (feed l abs b m)

abbrev pub HasRoom : Option Capture → Type 0
HasRoom none = Unit {0}
HasRoom (some c) = length c.filled < c.size

-- Between two bytes no header is complete and no capture is full.
pub record IsReady (m : Machine) : Type 0 where
  pub partial : is_complete m.header ≡ false
  pub room : HasRoom m.capture

stop-IsReady : (m : Machine) → is_complete m.header ≡ false → IsReady (stop m)
unfolding stop
stop-IsReady m h = record { partial = h; room = tt }

fail-IsReady : (m : Machine) → is_complete m.header ≡ false → IsReady (fail m)
unfolding fail stop
fail-IsReady m h = record { partial = h; room = tt }

after_moov-IsReady :
    (info : MoovInfo) (ms : Option ℕ) (fragmented : Bool) (m : Machine)
    → IsReady m
    → IsReady (after_moov info ms fragmented m)
unfolding after_moov stop
after_moov-IsReady info (some ms) fragmented m r = record { partial = r.partial; room = tt }
after_moov-IsReady info none true m r = record { partial = r.partial; room = r.room }
after_moov-IsReady info none false m r = record { partial = r.partial; room = tt }

keep_moov-IsReady : (info : Read MoovInfo) (m : Machine) → IsReady m → IsReady (keep_moov info m)
unfolding keep_moov
keep_moov-IsReady (value info) m r =
    after_moov-IsReady info info.header_duration_ms info.fragmented m r
keep_moov-IsReady undefined m r = fail-IsReady (record m { moov_info = none }) r.partial
keep_moov-IsReady thrown m r = fail-IsReady m r.partial

keep_moof-IsReady : (t : Option Totals) (m : Machine) → IsReady m → IsReady (keep_moof t m)
unfolding keep_moof
keep_moof-IsReady (some t) m r = record { partial = r.partial; room = r.room }
keep_moof-IsReady none m r = fail-IsReady m r.partial

parse_boxes-IsReady :
    (kind : ℕ) (buf : List ℕ) (bs : List Box) (m : Machine)
    → IsReady m
    → IsReady (parse_boxes kind buf bs m)
unfolding parse_boxes
parse_boxes-IsReady kind buf [] m r = fail-IsReady m r.partial
parse_boxes-IsReady kind buf (box ∷ bs) m r = elim (Bool-cases (kind == moov)) [
  | inl e ↦ rw e (keep_moov-IsReady (read_moov buf box) m r)
  | inr e ↦ rw e (keep_moof-IsReady (add_moof buf box m.fragments) m r)
]

parse_capture-IsReady :
    (c : Capture) (m : Machine) → is_complete m.header ≡ false → IsReady (parse_capture c m)
unfolding parse_capture
parse_capture-IsReady c m h =
    parse_boxes-IsReady c.kind c.filled (boxes c.filled 0 (length c.filled))
      (record m { capture = none }) (record { partial = h; room = tt })

pub fill-IsReady :
    (c : Capture) (bytes : List ℕ) (m : Machine)
    → is_complete m.header ≡ false
    → length c.filled + length bytes ≤ c.size
    → IsReady (fill c bytes m)
unfolding fill
fill-IsReady c bytes m h le = elim (Bool-cases (length (c.filled ++ bytes) == c.size)) [
  | inl e ↦ rw e (parse_capture-IsReady (record c { filled = c.filled ++ bytes }) m h)
  | inr e ↦ rw e (record { partial = h; room = ground (arith, length-append c.filled bytes) })
]

enter_box-IsReady :
    (l : Limits) (end kind : ℕ) (header : List ℕ) (size : ℕ) (m : Machine)
    → IsReady m
    → IsReady (enter_box l end kind header size m)
unfolding enter_box
enter_box-IsReady l end kind header size m r = elim (Bool-cases (ltb size (length header))) [
  | inl e ↦ rw e (fail-IsReady m r.partial)
  | inr fits ↦ rw fits (elim (Bool-cases (not (kind == moov || kind == moof))) [
    | inl e ↦ rw e (record { partial = r.partial; room = r.room })
    | inr e ↦ rw e (
        if-holds IsReady (ltb (if kind == moov then l.max_moov_bytes else l.max_moof_bytes) size)
          (fail-IsReady m r.partial)
          (fill-IsReady (record { kind = kind; size = size; filled = [] }) header
            (record m { next_box = (end - length header) + size }) r.partial (ground arith)))
  ])
]

on_size-IsReady :
    (l : Limits) (end kind : ℕ) (header : List ℕ) (size : ℕ) (m : Machine)
    → IsReady m
    → IsReady (on_size l end kind header size m)
unfolding on_size
on_size-IsReady l end kind header size m r =
    if-holds IsReady (size == 0)
      (if-holds IsReady (kind == moov || kind == moof) (fail-IsReady m r.partial)
        (stop-IsReady m r.partial))
      (enter_box-IsReady l end kind header size m r)

pub on_header-IsReady :
    (l : Limits) (end : ℕ) (m : Machine) → HasRoom m.capture → IsReady (on_header l end m)
unfolding on_header
on_header-IsReady l end m room =
    let cleared : IsReady (record m { header = [] }) = record { partial = refl; room = room } in
    if-holds IsReady (size_word m.header == 1)
      (if-holds IsReady (ltb max_safe_integer (get_or (u64_at m.header 8) 0))
        (fail-IsReady (record m { header = [] }) refl)
        (on_size-IsReady l end (get_or (u32_at m.header 4) 0) m.header
          (get_or (u64_at m.header 8) 0) (record m { header = [] }) cleared))
      (on_size-IsReady l end (get_or (u32_at m.header 4) 0) m.header (size_word m.header)
        (record m { header = [] }) cleared)

feed_open-IsReady :
    (l : Limits) (abs b : ℕ) (c : Option Capture) (m : Machine)
    → m.capture ≡ c
    → IsReady m
    → IsReady (feed_open l abs b c m)
feed_open-IsReady l abs b none m e r =
    if-holds IsReady (ltb abs m.next_box) r (elim (Bool-cases (is_complete (m.header ++ b ∷ []))) [
      | inl done ↦
          rw done (on_header-IsReady l (abs + 1) (record m { header = m.header ++ b ∷ [] }) r.room)
      | inr more ↦ rw more (record { partial = more; room = r.room })
    ])
feed_open-IsReady l abs b (some c) m e r =
    let room : HasRoom (some c) = subst HasRoom e r.room in
    fill-IsReady c (b ∷ []) m r.partial (omega arith)

pub feed-IsReady : (l : Limits) (abs b : ℕ) (m : Machine) → IsReady m → IsReady (feed l abs b m)
unfolding feed
feed-IsReady l abs b m r =
    if-holds IsReady m.stopped r (feed_open-IsReady l abs b m.capture m refl r)

pub feeds-IsReady :
    (l : Limits) (abs : ℕ) (bs : List ℕ) (m : Machine) → IsReady m → IsReady (feeds l abs bs m)
unfolding feeds
feeds-IsReady l abs [] m r = r
feeds-IsReady l abs (b ∷ bs) m r = feeds-IsReady l (abs + 1) bs _ (feed-IsReady l abs b m r)
