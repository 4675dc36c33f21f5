-- ===== src/Mp4/Push.antt =====
-- src/lib/mp4-duration.ts: each round of the loop of `push` does what its bytes do one by one, and
-- so does the loop.
use open_live.Prelude.{
  ℕ, suc, zero, ◌+◌, ◌-◌, ◌≤◌, ◌<◌, min, false, List, [], ◌∷◌, ◌++◌, Option, none, some, ◌≡◌, refl,
  ap, sym, ◌∙◌, subst, inl, inr, arith, if◌then◌else◌, ltb, length, length-append, Bool-cases,
  ltb→lt,
}
use open_live.Mp4.Scanner.{
  Limits, Capture, Machine, Mp4DurationScanner, new_scanner, fill, take_bytes, drop_bytes,
  header_need, header_grown, read_header, round, push_loop, push, push_all, finish,
}
use open_live.Mp4.Feed.{is_complete, feed, feeds, HasRoom, IsReady, feeds-IsReady}
use open_live.Mp4.Chunks.{feeds-stopped, feeds-fill, feeds-skip, feeds-header}

length-take_bytes : (n : ℕ) (bs : List ℕ) → n ≤ length bs → length (take_bytes n bs) ≡ n
unfolding take_bytes
length-take_bytes zero bs h = refl
length-take_bytes (suc n) [] h = absurd (omega arith)
length-take_bytes (suc n) (b ∷ bs) h = omega (arith, length-take_bytes n bs)

length-drop_bytes : (n : ℕ) (bs : List ℕ) → length (drop_bytes n bs) ≡ length bs - n
unfolding drop_bytes
length-drop_bytes zero bs = omega arith
length-drop_bytes (suc n) [] = omega arith
length-drop_bytes (suc n) (b ∷ bs) = omega (arith, length-drop_bytes n bs)

feeds-split :
    (l : Limits) (n abs : ℕ) (bs : List ℕ) (m : Machine)
    → n ≤ length bs
    → feeds l abs bs m ≡ feeds l (abs + n) (drop_bytes n bs) (feeds l abs (take_bytes n bs) m)
unfolding take_bytes drop_bytes feeds
feeds-split l zero abs bs m h = ap (λ at. feeds l at bs m) (omega arith)
feeds-split l (suc n) abs [] m h = absurd (omega arith)
feeds-split l (suc n) abs (b ∷ bs) m h =
    feeds-split l n (abs + 1) bs _ (omega arith)
    ∙ ap (λ at. feeds l at (drop_bytes n bs) (feeds l (abs + 1) (take_bytes n bs) (feed l abs b m)))
        (omega arith)

-- What a round of the loop owes to the bytes that are left.
abbrev Takes : Limits → ℕ → List ℕ → Machine → ℕ × Machine → Type 0
Takes l abs rest m r = (0 < r.0) × (r.0 ≤ length rest) × (feeds l abs (take_bytes r.0 rest) m ≡ r.1)

fill-Takes :
    (l : Limits) (abs : ℕ) (bs : List ℕ) (c : Capture) (m : Machine)
    → m.stopped ≡ false
    → m.capture ≡ some c
    → 0 < length bs
    → length c.filled + length bs ≤ c.size
    → feeds l abs bs m ≡ fill c bs m
fill-Takes l abs [] c m live e some_byte fit = absurd (omega arith)
fill-Takes l abs (b ∷ bs) c m live e some_byte fit = feeds-fill l abs b bs c m live e fit

header-Takes :
    (l : Limits) (abs : ℕ) (bs : List ℕ) (m : Machine)
    → m.stopped ≡ false
    → m.capture ≡ none
    → m.next_box ≤ abs
    → is_complete m.header ≡ false
    → 0 < length bs
    → length m.header + length bs ≤ header_need m.header
    → feeds l abs bs m
      ≡ header_grown l
          (header_need m.header)
          (abs + length bs)
          (record m { header = m.header ++ bs })
header-Takes l abs [] m live e past part some_byte fit = absurd (omega arith)
header-Takes l abs (b ∷ bs) m live e past part some_byte fit =
    feeds-header l abs b bs m live e past part fit

need_left : (h : List ℕ) → is_complete h ≡ false → length h < header_need h
unfolding header_need
need_left h part = ground arith

read_header-Takes :
    (l : Limits) (abs : ℕ) (rest : List ℕ) (m : Machine)
    → m.stopped ≡ false
    → m.capture ≡ none
    → m.next_box ≤ abs
    → is_complete m.header ≡ false
    → 0 < length rest
    → Takes l abs rest m (read_header l abs rest m)
unfolding read_header
read_header-Takes l abs rest m live e past part more =
    let need = header_need m.header in
    let taken = min (need - length m.header) (length rest) in
    let left : length m.header < need = need_left m.header part in
    let size : length (take_bytes taken rest) ≡ taken =
      length-take_bytes taken rest (omega arith) in
    (
      omega arith,
      omega arith,
      header-Takes l abs (take_bytes taken rest) m live e past part (omega arith) (omega arith)
          ∙ ap
              (λ n.
                header_grown l need (abs + n)
                  (record m { header = m.header ++ take_bytes taken rest }))
              size,
    )

round-Takes :
    (l : Limits) (abs : ℕ) (rest : List ℕ) (o : Option Capture) (m : Machine)
    → m.stopped ≡ false
    → m.capture ≡ o
    → IsReady m
    → 0 < length rest
    → Takes l abs rest m (round l abs rest o m)
unfolding round
round-Takes l abs rest (some c) m live e ready more =
    let room : HasRoom (some c) = subst HasRoom e ready.room in
    let taken = min (c.size - length c.filled) (length rest) in
    let size : length (take_bytes taken rest) ≡ taken =
      length-take_bytes taken rest (omega arith) in
    (
      omega arith,
      omega arith,
      fill-Takes l abs (take_bytes taken rest) c m live e (omega arith) (omega arith),
    )
round-Takes l abs rest none m live e ready more = elim (Bool-cases (ltb abs m.next_box)) [
  | inl before ↦ rw before (skipped (ltb→lt abs m.next_box before))
  | inr past ↦ rw past (read_header-Takes l abs rest m live e (ground arith) ready.partial more)
]
  where
    skipped : abs < m.next_box → Takes l abs rest m (min (m.next_box - abs) (length rest), m)
    skipped before =
        let taken = min (m.next_box - abs) (length rest) in
        let size : length (take_bytes taken rest) ≡ taken =
          length-take_bytes taken rest (omega arith) in
        (omega arith, omega arith, feeds-skip l abs (take_bytes taken rest) m live e (omega arith))

push_loop-feeds :
    (l : Limits) (rounds abs : ℕ) (rest : List ℕ) (m : Machine)
    → IsReady m
    → length rest ≤ rounds
    → push_loop l rounds abs rest m ≡ feeds l abs rest m
unfolding push_loop feeds
push_loop-feeds l zero abs [] m ready enough = refl
push_loop-feeds l zero abs (b ∷ rest) m ready enough = absurd (omega arith)
push_loop-feeds l (suc rounds) abs [] m ready enough = refl
push_loop-feeds l (suc rounds) abs (b ∷ rest) m ready enough =
    let bs = b ∷ rest in
    let r = round l abs bs m.capture m in
    let later = push_loop l rounds (abs + r.0) (drop_bytes r.0 bs) r.1 in
    elim (Bool-cases m.stopped) [
      | inl over ↦ ap (λ s. if s then m else later) over ∙ sym (feeds-stopped l abs bs m over)
      | inr live ↦
          let (some_byte, fit, same) =
            round-Takes l abs bs m.capture m live refl ready (omega arith) in
          let ready' : IsReady r.1 =
            subst IsReady same (feeds-IsReady l abs (take_bytes r.0 bs) m ready) in
          let rest_of : later ≡ feeds l (abs + r.0) (drop_bytes r.0 bs) r.1 =
            push_loop-feeds l rounds (abs + r.0) (drop_bytes r.0 bs) r.1 ready'
              (omega (arith, length-drop_bytes r.0 bs)) in
          ap (λ s. if s then m else later) live
          ∙ (rest_of
              ∙ sym (
                  feeds-split l r.0 abs bs m fit
                  ∙ ap (feeds l (abs + r.0) (drop_bytes r.0 bs)) same))
    ]

abbrev pub joined : List (List ℕ) → List ℕ
joined [] = []
joined (chunk ∷ chunks) = chunk ++ joined chunks

-- The scanner that reads a stream byte by byte.
abbrev pub scanned : Limits → List ℕ → Mp4DurationScanner → Mp4DurationScanner
scanned l bytes s = record { pos = s.pos + length bytes; machine = feeds l s.pos bytes s.machine }

-- A chunk that is pushed into a scanner between two bytes leaves it exactly as reading the bytes
-- of the chunk one at a time does.
pub push-scanned :
    (l : Limits) (chunk : List ℕ) (s : Mp4DurationScanner)
    → IsReady s.machine
    → push l chunk s ≡ scanned l chunk s
unfolding push
push-scanned l chunk s ready =
    ap (λ m. record { pos = s.pos + length chunk; machine = m })
      (push_loop-feeds l (length chunk) s.pos chunk s.machine ready (omega arith))

feeds-append :
    (l : Limits) (abs : ℕ) (xs ys : List ℕ) (m : Machine)
    → feeds l abs (xs ++ ys) m ≡ feeds l (abs + length xs) ys (feeds l abs xs m)
unfolding feeds
feeds-append l abs [] ys m = ap (λ at. feeds l at ys m) (omega arith)
feeds-append l abs (x ∷ xs) ys m =
    feeds-append l (abs + 1) xs ys (feed l abs x m)
    ∙ ap (λ at. feeds l at ys (feeds l (abs + 1) xs (feed l abs x m))) (omega arith)

scanned-append :
    (l : Limits) (xs ys : List ℕ) (s : Mp4DurationScanner)
    → scanned l ys (scanned l xs s) ≡ scanned l (xs ++ ys) s
scanned-append l xs ys s =
    ap
      (λ at. record {
        pos = at;
        machine = feeds l (s.pos + length xs) ys (feeds l s.pos xs s.machine);
      })
      (omega (arith, length-append xs ys))
    ∙ ap (λ m. record { pos = s.pos + length (xs ++ ys); machine = m })
        (sym (feeds-append l s.pos xs ys s.machine))

pub push_all-scanned :
    (l : Limits) (chunks : List (List ℕ)) (s : Mp4DurationScanner)
    → IsReady s.machine
    → push_all l chunks s ≡ scanned l (joined chunks) s
unfolding push_all feeds
push_all-scanned l [] s ready = ap (λ at. record { pos = at; machine = s.machine }) (omega arith)
push_all-scanned l (chunk ∷ chunks) s ready =
    ap (push_all l chunks) (push-scanned l chunk s ready)
    ∙ (push_all-scanned l chunks (scanned l chunk s) (feeds-IsReady l s.pos chunk s.machine ready)
        ∙ scanned-append l chunk (joined chunks) s)

pub new_scanner-IsReady : IsReady new_scanner.machine
new_scanner-IsReady = record { partial = refl; room = tt }

-- A new scanner finishes with the same duration however the same bytes are cut into chunks, the
-- empty chunk and the one of a single byte included.
pub finish-cut :
    (l : Limits) (chunks others : List (List ℕ))
    → joined chunks ≡ joined others
    → finish (push_all l chunks new_scanner) ≡ finish (push_all l others new_scanner)
finish-cut l chunks others same = ap finish (
    push_all-scanned l chunks new_scanner new_scanner-IsReady
    ∙ (ap (λ bytes. scanned l bytes new_scanner) same
        ∙ sym (push_all-scanned l others new_scanner new_scanner-IsReady)))
