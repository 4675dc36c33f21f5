-- ===== src/Mp4/Memory.antt =====
-- src/lib/mp4-duration.ts: what the scanner keeps of a stream, however long the stream is.
use open_live.Prelude.{
  ℕ, ◌+◌, ◌-◌, ◌≤◌, ◌<◌, Bool, true, false, List, [], ◌∷◌, ◌++◌, Option, none, some, ◌≡◌, refl, sym,
  subst, inl, inr, arith, ltb, ◌==◌, nat_eq, ◌||◌, not, length, Bool-cases, if-holds, get_or,
}
use open_live.Mp4.{u32_at, u64_at, Box, boxes, moov, moof, max_safe_integer}
use open_live.Mp4.Movie.{Read, MoovInfo, read_moov}
use open_live.Mp4.Movie.Read.{value, undefined, thrown}
use open_live.Mp4.Fragments.{Totals, add_moof}
use open_live.Mp4.Scanner.{
  Limits, Capture, Machine, Mp4DurationScanner, new_scanner, stop, fail, after_moov, keep_moov,
  keep_moof, parse_boxes, parse_capture, fill, limit_of, size_word, enter_box, on_size, on_header,
  push_all,
}
use open_live.Mp4.Feed.{is_complete, feed_open, feed, feeds, IsReady, HasRoom, feeds-IsReady}
use open_live.Mp4.Push.{joined, push_all-scanned, new_scanner-IsReady}

abbrev Allowed : Limits → Option Capture → Type 0
Allowed l none = Unit {0}
Allowed l (some c) = c.size ≤ limit_of l c.kind

after_moov-Allowed :
    (l : Limits) (info : MoovInfo) (ms : Option ℕ) (fragmented : Bool) (m : Machine)
    → Allowed l m.capture
    → Allowed l (after_moov info ms fragmented m).capture
unfolding after_moov stop
after_moov-Allowed l info (some ms) fragmented m a = tt
after_moov-Allowed l info none true m a = a
after_moov-Allowed l info none false m a = tt

keep_moov-Allowed :
    (l : Limits) (info : Read MoovInfo) (m : Machine)
    → Allowed l m.capture
    → Allowed l (keep_moov info m).capture
unfolding keep_moov fail stop
keep_moov-Allowed l (value info) m a =
    after_moov-Allowed l info info.header_duration_ms info.fragmented m a
keep_moov-Allowed l undefined m a = tt
keep_moov-Allowed l thrown m a = tt

keep_moof-Allowed :
    (l : Limits) (t : Option Totals) (m : Machine)
    → Allowed l m.capture
    → Allowed l (keep_moof t m).capture
unfolding keep_moof fail stop
keep_moof-Allowed l (some t) m a = a
keep_moof-Allowed l none m a = tt

parse_boxes-Allowed :
    (l : Limits) (kind : ℕ) (buf : List ℕ) (bs : List Box) (m : Machine)
    → Allowed l m.capture
    → Allowed l (parse_boxes kind buf bs m).capture
unfolding parse_boxes fail stop
parse_boxes-Allowed l kind buf [] m a = tt
parse_boxes-Allowed l kind buf (box ∷ bs) m a =
    if-holds (λ (k : Machine). Allowed l k.capture) (kind == moov)
      (keep_moov-Allowed l (read_moov buf box) m a)
      (keep_moof-Allowed l (add_moof buf box m.fragments) m a)

fill-Allowed :
    (l : Limits) (c : Capture) (bytes : List ℕ) (m : Machine)
    → c.size ≤ limit_of l c.kind
    → Allowed l (fill c bytes m).capture
unfolding fill parse_capture
fill-Allowed l c bytes m a =
    let buf = c.filled ++ bytes in
    if-holds (λ (k : Machine). Allowed l k.capture) (length buf == c.size)
      (parse_boxes-Allowed l c.kind buf (boxes buf 0 (length buf)) (record m { capture = none }) tt)
      a

enter_box-Allowed :
    (l : Limits) (end kind : ℕ) (header : List ℕ) (size : ℕ) (m : Machine)
    → Allowed l m.capture
    → Allowed l (enter_box l end kind header size m).capture
unfolding enter_box fail stop
enter_box-Allowed l end kind header size m a =
    let P = λ (k : Machine). Allowed l k.capture in
    if-holds P (ltb size (length header)) tt (
      if-holds P (not (kind == moov || kind == moof)) a
        (elim (Bool-cases (ltb (limit_of l kind) size)) [
          | inl e ↦ rw e tt
          | inr e ↦ rw e (
              fill-Allowed l (record { kind = kind; size = size; filled = [] }) header
                (record m { next_box = (end - length header) + size }) (ground arith))
        ]))

on_size-Allowed :
    (l : Limits) (end kind : ℕ) (header : List ℕ) (size : ℕ) (m : Machine)
    → Allowed l m.capture
    → Allowed l (on_size l end kind header size m).capture
unfolding on_size fail stop
on_size-Allowed l end kind header size m a =
    let P = λ (k : Machine). Allowed l k.capture in
    if-holds P (size == 0) (if-holds P (kind == moov || kind == moof) tt tt)
      (enter_box-Allowed l end kind header size m a)

on_header-Allowed :
    (l : Limits) (end : ℕ) (m : Machine)
    → Allowed l m.capture
    → Allowed l (on_header l end m).capture
unfolding on_header fail stop
on_header-Allowed l end m a =
    let P = λ (k : Machine). Allowed l k.capture in
    let kind = get_or (u32_at m.header 4) 0 in
    let cleared : Machine = record m { header = [] } in
    if-holds P (size_word m.header == 1)
      (if-holds P (ltb max_safe_integer (get_or (u64_at m.header 8) 0)) tt
        (on_size-Allowed l end kind m.header (get_or (u64_at m.header 8) 0) cleared a))
      (on_size-Allowed l end kind m.header (size_word m.header) cleared a)

feed_open-Allowed :
    (l : Limits) (abs b : ℕ) (o : Option Capture) (m : Machine)
    → m.capture ≡ o
    → Allowed l o
    → Allowed l (feed_open l abs b o m).capture
feed_open-Allowed l abs b none m e a =
    let P = λ (k : Machine). Allowed l k.capture in
    let grown : Machine = record m { header = m.header ++ b ∷ [] } in
    let held : Allowed l m.capture = subst (Allowed l) (sym e) a in
    if-holds P (ltb abs m.next_box) held
      (if-holds P (is_complete grown.header) (on_header-Allowed l (abs + 1) grown held) held)
feed_open-Allowed l abs b (some c) m e a = fill-Allowed l c (b ∷ []) m a

feeds-Allowed :
    (l : Limits) (abs : ℕ) (bs : List ℕ) (m : Machine)
    → Allowed l m.capture
    → Allowed l (feeds l abs bs m).capture
unfolding feeds feed
feeds-Allowed l abs [] m a = a
feeds-Allowed l abs (b ∷ bs) m a = feeds-Allowed l (abs + 1) bs (feed l abs b m) (
    if-holds (λ (k : Machine). Allowed l k.capture) m.stopped a
      (feed_open-Allowed l abs b m.capture m refl a))

abbrev held_bytes : Option Capture → ℕ
held_bytes none = 0
held_bytes (some c) = length c.filled

abbrev most_bytes : Limits → Option Capture → ℕ
most_bytes l none = 0
most_bytes l (some c) = limit_of l c.kind

-- What the scanner holds: under sixteen header bytes, and a part of one box within its limit.
pub record IsBounded (l : Limits) (m : Machine) : Type 0 where
  pub header_bytes : length m.header < 16
  pub capture_bytes : held_bytes m.capture ≤ most_bytes l m.capture

partial_header : (h : List ℕ) → is_complete h ≡ false → length h < 16
partial_header h e = ground arith

held_lem :
    (l : Limits) (o : Option Capture) → HasRoom o → Allowed l o → held_bytes o ≤ most_bytes l o
held_lem l none r a = omega arith
held_lem l (some c) r a = omega arith

-- After any chunks a new scanner keeps fewer than sixteen bytes of a header and, of the one box
-- that it captures, at most as many bytes as the limit for boxes of that kind.
pub push_all-IsBounded :
    (l : Limits) (chunks : List (List ℕ)) → IsBounded l (push_all l chunks new_scanner).machine
push_all-IsBounded l chunks =
    subst (λ (s : Mp4DurationScanner). IsBounded l s.machine)
      (sym (push_all-scanned l chunks new_scanner new_scanner-IsReady))
      (record {
        header_bytes = partial_header _ ready.partial;
        capture_bytes = held_lem l _ ready.room held;
      })
  where
    ready : IsReady (feeds l 0 (joined chunks) new_scanner.machine)
    ready = feeds-IsReady l 0 (joined chunks) new_scanner.machine new_scanner-IsReady

    held : Allowed l (feeds l 0 (joined chunks) new_scanner.machine).capture
    held = feeds-Allowed l 0 (joined chunks) new_scanner.machine tt
