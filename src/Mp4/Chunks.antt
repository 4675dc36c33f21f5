-- ===== src/Mp4/Chunks.antt =====
-- src/lib/mp4-duration.ts: `push` reads a chunk as the machine that reads one byte at a time does,
-- so that the cut of the stream into chunks makes no difference.
use open_live.Prelude.{
  ℕ, suc, zero, ◌+◌, ◌≤◌, ◌<◌, true, false, List, [], ◌∷◌, ◌++◌, Option, none, some, ◌≡◌, refl, ap,
  sym, ◌∙◌, subst, ◌⊎◌, inl, inr, lt→ltb, arith, if◌then◌else◌, ltb, leb, ◌==◌, nat_eq, nat_beq,
  ◌||◌, ◌&&◌, not, length, length-append, append_assoc,
}
use open_live.Mp4.{u32_at, byte_at}
use open_live.Mp4.Scanner.{
  Limits, Capture, Machine, parse_capture, fill, size_word, on_header, header_need, header_grown,
}
use open_live.Mp4.Feed.{is_complete, collect, feed_open, feed, feeds}

pub feeds-stopped :
    (l : Limits) (abs : ℕ) (bs : List ℕ) (m : Machine) → m.stopped ≡ true → feeds l abs bs m ≡ m
unfolding feeds feed
feeds-stopped l abs [] m h = refl
feeds-stopped l abs (b ∷ bs) m h =
    ap (λ s. feeds l (abs + 1) bs (if s then m else feed_open l abs b m.capture m)) h
    ∙ feeds-stopped l (abs + 1) bs m h

-- One byte with a capture open, before the next box, and in a header.
module _ (l : Limits) (abs b : ℕ) (m : Machine) (live : m.stopped ≡ false) where
  feed-fill : (c : Capture) → m.capture ≡ some c → feed l abs b m ≡ fill c (b ∷ []) m
  unfolding feed
  feed-fill c e =
      ap (λ s. if s then m else feed_open l abs b m.capture m) live
      ∙ ap (λ o. feed_open l abs b o m) e

  feed-skip : m.capture ≡ none → abs < m.next_box → feed l abs b m ≡ m
  unfolding feed
  feed-skip e h =
      ap (λ s. if s then m else feed_open l abs b m.capture m) live
      ∙ (ap (λ o. feed_open l abs b o m) e
          ∙ ap (λ t. if t then m else collect l abs (m.header ++ b ∷ []) m)
              (lt→ltb abs m.next_box h))

  feed-collect :
      m.capture ≡ none
      → ltb abs m.next_box ≡ false
      → feed l abs b m ≡ collect l abs (m.header ++ b ∷ []) m
  unfolding feed
  feed-collect e h =
      ap (λ s. if s then m else feed_open l abs b m.capture m) live
      ∙ (ap (λ o. feed_open l abs b o m) e
          ∙ ap (λ t. if t then m else collect l abs (m.header ++ b ∷ []) m) h)

fill-partial :
    (c : Capture) (bytes : List ℕ) (m : Machine)
    → length c.filled + length bytes < c.size
    → fill c bytes m ≡ record m { capture = some (record c { filled = c.filled ++ bytes }) }
unfolding fill
fill-partial c bytes m h =
    let short : (length (c.filled ++ bytes) == c.size) ≡ false =
      ground (arith, length-append c.filled bytes) in
    rw short

fill-append :
    (c : Capture) (xs ys : List ℕ) (m : Machine) (o : Option Capture)
    → fill (record c { filled = c.filled ++ xs }) ys (record m { capture = o })
      ≡ fill c (xs ++ ys) m
unfolding fill parse_capture
fill-append c xs ys m o =
    ap
      (λ f.
        if length f == c.size
        then parse_capture (record c { filled = f }) m
        else record m { capture = some (record c { filled = f }) })
      (append_assoc c.filled xs ys)

pub feeds-fill :
    (l : Limits) (abs b : ℕ) (bs : List ℕ) (c : Capture) (m : Machine)
    → m.stopped ≡ false
    → m.capture ≡ some c
    → length c.filled + length (b ∷ bs) ≤ c.size
    → feeds l abs (b ∷ bs) m ≡ fill c (b ∷ bs) m
unfolding feeds
feeds-fill l abs b [] c m live e fit = feed-fill l abs b m live c e
feeds-fill l abs b (b' ∷ bs) c m live e fit =
    let grown : Capture = record c { filled = c.filled ++ b ∷ [] } in
    ap (feeds l (abs + 1) (b' ∷ bs))
      (feed-fill l abs b m live c e ∙ fill-partial c (b ∷ []) m (omega arith))
    ∙ (feeds-fill l (abs + 1) b' bs grown (record m { capture = some grown }) live refl
          (omega (arith, length-append c.filled (b ∷ [])))
        ∙ fill-append c (b ∷ []) (b' ∷ bs) m (some grown))

pub feeds-skip :
    (l : Limits) (abs : ℕ) (bs : List ℕ) (m : Machine)
    → m.stopped ≡ false
    → m.capture ≡ none
    → abs + length bs ≤ m.next_box
    → feeds l abs bs m ≡ m
unfolding feeds
feeds-skip l abs [] m live e fit = refl
feeds-skip l abs (b ∷ bs) m live e fit =
    ap (feeds l (abs + 1) bs) (feed-skip l abs b m live e (omega arith))
    ∙ feeds-skip l (abs + 1) bs m live e (omega arith)

byte_at-append : (xs ys : List ℕ) (at : ℕ) → at < length xs → byte_at (xs ++ ys) at ≡ byte_at xs at
unfolding byte_at
byte_at-append [] ys at h = absurd (omega arith)
byte_at-append (x ∷ xs) ys zero h = refl
byte_at-append (x ∷ xs) ys (suc at) h = byte_at-append xs ys at (omega arith)

size_word-append : (xs ys : List ℕ) → 8 ≤ length xs → size_word (xs ++ ys) ≡ size_word xs
unfolding u32_at
size_word-append xs ys h =
    rw
      (
        byte_at-append xs ys 0 (omega arith),
        byte_at-append xs ys 1 (omega arith),
        byte_at-append xs ys 2 (omega arith),
        byte_at-append xs ys 3 (omega arith),
      )
      refl

-- A byte that does not complete what the header needs leaves the header partial.
header-grows :
    (h : List ℕ) (b : ℕ)
    → is_complete h ≡ false
    → length h + 1 < header_need h
    → (header_need (h ++ b ∷ []) ≡ header_need h) × (is_complete (h ++ b ∷ []) ≡ false)
unfolding header_need
header-grows h b part more = ground (arith, size_word-append h (b ∷ []), length-append h (b ∷ []))

-- The tests of the two machines agree, for `n` header bytes and then `k`, one more.
last_byte :
    (n k w w' : ℕ) (x y : Machine)
    → (leb 8 n && (not (w == 1) || leb 16 n)) ≡ false
    → k ≡ n + 1
    → (n < 8) ⊎ (w' ≡ w)
    → k ≤ (if leb 8 n && w == 1 then 16 else 8)
    → (if leb 8 k && (not (w' == 1) || leb 16 k) then x else y) ≡ (
        if ltb k (if leb 8 n && w == 1 then 16 else 8)
        then y
        else if nat_beq (if leb 8 n && w == 1 then 16 else 8) 8 && w' == 1
        then y
        else x)
last_byte n k w w' x y part e same fit = ground arith

lt-or-ge : (n k : ℕ) → (n < k) ⊎ (k ≤ n)
lt-or-ge n k = ground arith

same_word : (h : List ℕ) (b : ℕ) → (length h < 8) ⊎ (size_word (h ++ b ∷ []) ≡ size_word h)
same_word h b = elim (lt-or-ge (length h) 8) [
  | inl short ↦ inl short
  | inr long ↦ inr (size_word-append h (b ∷ []) long)
]

-- The byte that does completes the header, or shows that eight more are needed.
header-ends :
    (l : Limits) (abs b : ℕ) (m : Machine)
    → is_complete m.header ≡ false
    → length m.header + 1 ≤ header_need m.header
    → collect l abs (m.header ++ b ∷ []) m
      ≡ header_grown l (header_need m.header) (abs + 1) (record m { header = m.header ++ b ∷ [] })
unfolding header_need header_grown
header-ends l abs b m part fit =
    let grown : Machine = record m { header = m.header ++ b ∷ [] } in
    let longer : length grown.header ≡ length m.header + 1 = length-append m.header (b ∷ []) in
    last_byte (length m.header) (length grown.header) (size_word m.header) (size_word grown.header)
      (on_header l (abs + 1) grown) grown part longer (same_word m.header b)
      (subst (λ k. k ≤ header_need m.header) (sym longer) fit)

pub feeds-header :
    (l : Limits) (abs b : ℕ) (bs : List ℕ) (m : Machine)
    → m.stopped ≡ false
    → m.capture ≡ none
    → m.next_box ≤ abs
    → is_complete m.header ≡ false
    → length m.header + length (b ∷ bs) ≤ header_need m.header
    → feeds l abs (b ∷ bs) m
      ≡ header_grown l
          (header_need m.header)
          (abs + length (b ∷ bs))
          (record m { header = m.header ++ b ∷ bs })
unfolding feeds
feeds-header l abs b [] m live e past part fit =
    feed-collect l abs b m live e (ground arith)
    ∙ header-ends l abs b m part (omega arith)
    ∙ ap
        (λ end.
          header_grown l (header_need m.header) end (record m { header = m.header ++ b ∷ [] }))
        (omega arith)
feeds-header l abs b (b' ∷ bs) m live e past part fit =
    let grown : Machine = record m { header = m.header ++ b ∷ [] } in
    let (need, still) = header-grows m.header b part (omega arith) in
    let waits : feed l abs b m ≡ grown =
      feed-collect l abs b m live e (ground arith)
      ∙ ap (λ t. if t then on_header l (abs + 1) grown else grown) still in
    ap (feeds l (abs + 1) (b' ∷ bs)) waits
    ∙ (feeds-header l (abs + 1) b' bs grown live e (omega arith) still
          (omega (arith, need, length-append m.header (b ∷ [])))
        ∙ (ap
              (λ n.
                header_grown l n ((abs + 1) + length (b' ∷ bs))
                  (record m { header = (m.header ++ b ∷ []) ++ b' ∷ bs }))
              need
            ∙ (ap
                  (λ end.
                    header_grown l (header_need m.header) end
                      (record m { header = (m.header ++ b ∷ []) ++ b' ∷ bs }))
                  (omega arith)
                ∙ ap
                    (λ h.
                      header_grown l (header_need m.header) (abs + length (b ∷ b' ∷ bs))
                        (record m { header = h }))
                    (append_assoc m.header (b ∷ []) (b' ∷ bs)))))
