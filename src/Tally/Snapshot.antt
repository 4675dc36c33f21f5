-- ===== src/Tally/Snapshot.antt =====
-- The connect-time snapshot of src/services/tally.service.ts: broadcasts that arrive between
-- `beginSnapshot` and `endSnapshot` reach the socket after its snapshot frames.
use open_live.Prelude.{
  ℕ, String, ◌+◌, true, false, List, [], ◌∷◌, ◌++◌, Option, none, some, if◌then◌else◌, ◌==◌, nat_eq,
  string_eq, get_or, ◌≡◌, refl, sym, ap, ◌∙◌, ◌&&◌, append_assoc, append-nil, Option-cases,
  Bool-cases, ◌⊎◌, inl, inr, ==_refl,
}
use open_live.Prelude.Dict.{lookup, insert, remove, has, lookup-insert, lookup-remove, Distinct}
use open_live.Prelude.Json.{Json}
use open_live.Tally.{
  Hub, send, send_all, deliver, deliver_all, stamp, next_seq, current_seq, broadcast, get_sockets,
  begin_snapshot, end_snapshot,
}
use open_live.Tally.View.{view, deliver_all-view, deliver_all-frame}

-- The payload that a broadcast makes of a message.
abbrev pub next_payload : String → String → Json → Hub → Json
next_payload p ts message h = stamp (current_seq p h + 1) ts message

-- Where no socket stands twice in the production's set, each ready subscriber of the production is
-- sent the stamped message once, or has it appended to its snapshot buffer, after all that it was
-- sent or is owed already; any other socket gets nothing.
pub broadcast-view :
    (p ts : String) (message : Json) (h : Hub) (w : ℕ)
    → Distinct (get_sockets p h)
    → view w (broadcast p ts message h) ≡ (
        if has (get_sockets p h) w && h.ready w
        then view w h ++ next_payload p ts message h ∷ []
        else view w h)
unfolding broadcast get_sockets has current_seq view
broadcast-view p ts message h w d = elim (Option-cases (lookup p h.subscribers)) [
  | inl e ↦ rw (broadcast, e)
  | inr (subs, e) ↦
      let d' : Distinct subs = rw e at d in
      rw (broadcast, e) (deliver_all-view (next_payload p ts message h) subs w (next_seq p h).1 d')
]

-- A buffering socket: nothing is sent to it, and what is broadcast is appended to its buffer.
module _ (w : ℕ) where
  Owes : List Json → List Json → Hub → Type 0
  Owes sent buffer h =
      (h.sent w ≡ sent) × (lookup w h.snapshot_buffers ≡ some buffer) × (h.ready w ≡ true)

  deliver-Owes :
      (payload : Json) (ws : ℕ) (s b : List Json) (h : Hub)
      → Owes s b h
      → Owes s (if ws == w then b ++ payload ∷ [] else b) (deliver payload ws h)
  unfolding Owes deliver send
  deliver-Owes payload ws s b h (sent, buffer, ready) = elim (Bool-cases (ws == w)) [
    | inl same ↦
        let e : ws ≡ w = (nat_eq.beq_iff ws w).0 same in
        let r : h.ready ws ≡ true = rw e ready in
        let l : lookup ws h.snapshot_buffers ≡ some b = rw e buffer in
        rw (same, deliver, r, l)
          (sent, rw (lookup-insert ws w (b ++ payload ∷ []) h.snapshot_buffers, same), ready)
    | inr other ↦ rw other (elsewhere (Bool-cases (h.ready ws)) other)
  ]
    where
      buffered :
          (ws == w) ≡ false
          → (o : Option (List Json)) → lookup ws h.snapshot_buffers ≡ o
          → h.ready ws ≡ true
          → Owes s b (deliver payload ws h)
      buffered other none e r = rw (deliver, r, e) (rw other sent, buffer, ready)
      buffered other (some c) e r =
          rw (deliver, r, e)
            (
              sent,
              rw (lookup-insert ws w (c ++ payload ∷ []) h.snapshot_buffers, other) buffer,
              ready,
            )

      elsewhere :
          (h.ready ws ≡ true) ⊎ (h.ready ws ≡ false)
          → (ws == w) ≡ false
          → Owes s b (deliver payload ws h)
      elsewhere (inl r) other = buffered other (lookup ws h.snapshot_buffers) refl r
      elsewhere (inr r) other = rw (deliver, r) (sent, buffer, ready)

  deliver_all-Owes :
      (payload : Json) (subs : List ℕ) (s b : List Json) (h : Hub)
      → Distinct subs
      → Owes s b h
      → Owes s (if has subs w then b ++ payload ∷ [] else b) (deliver_all payload subs h)
  unfolding deliver_all has
  deliver_all-Owes payload [] s b h d o = o
  deliver_all-Owes payload (ws ∷ subs) s b h (fresh, d) o = elim (Bool-cases (ws == w)) [
    | inl same ↦
        let none_left : has subs w ≡ false = rw (← (nat_eq.beq_iff ws w).0 same) fresh in
        let here : Owes s (b ++ payload ∷ []) (deliver payload ws h) =
          rw same at (deliver-Owes payload ws s b h o) in
        rw same (rw none_left at (deliver_all-Owes payload subs s _ (deliver payload ws h) d here))
    | inr other ↦
        let here : Owes s b (deliver payload ws h) =
          rw other at (deliver-Owes payload ws s b h o) in
        rw other (deliver_all-Owes payload subs s b (deliver payload ws h) d here)
  ]

-- What happens between `beginSnapshot` and `endSnapshot` of a socket: the connect handler sends it
-- a frame of the snapshot, or somebody broadcasts to a production.
pub data Event : Type 0 where
  frame : Json → Event
  cast : String → String → Json → Event

unfoldable pub step : ℕ → Event → Hub → Hub
step w (frame payload) h = send w payload h
step w (cast p ts message) h = broadcast p ts message h

unfoldable pub run : ℕ → List Event → Hub → Hub
unfolding step
run w [] h = h
run w (e ∷ es) h = run w es (step w e h)

-- The frames of the snapshot, in order.
unfoldable pub frames : List Event → List Json
frames [] = []
frames (frame payload ∷ es) = payload ∷ frames es
frames (cast p ts message ∷ es) = frames es

abbrev pub SubscriberMap : Type 0
SubscriberMap = List (String × List ℕ)

abbrev pub SeqMap : Type 0
SeqMap = List (String × ℕ)

-- The sequence counters after a broadcast to `p`: they move only if somebody ever subscribed.
unfoldable pub seqs_after : String → SubscriberMap → SeqMap → SeqMap
seqs_after p subs seqs = elim (lookup p subs) [
  | none ↦ seqs
  | some _ ↦ insert p (get_or (lookup p seqs) 0 + 1) seqs
]

-- The payloads of the broadcasts to productions that the socket subscribes to, in order, computed
-- from the subscribers and the counters alone.
unfoldable pub received : ℕ → SubscriberMap → SeqMap → List Event → List Json
received w subs seqs [] = []
received w subs seqs (frame payload ∷ es) = received w subs seqs es
received w subs seqs (cast p ts message ∷ es) =
    let later = received w subs (seqs_after p subs seqs) es in
    if has (get_or (lookup p subs) []) w
    then stamp (get_or (lookup p seqs) 0 + 1) ts message ∷ later
    else later

pub broadcast-maps :
    (p ts : String) (message : Json) (h : Hub)
    → ((broadcast p ts message h).subscribers ≡ h.subscribers)
      × ((broadcast p ts message h).seq_by_production
          ≡ seqs_after p h.subscribers h.seq_by_production)
      × ((broadcast p ts message h).watch_only_sockets ≡ h.watch_only_sockets)
unfolding broadcast seqs_after lookup current_seq
broadcast-maps p ts message h = elim (Option-cases (lookup p h.subscribers)) [
  | inl e ↦ rw (broadcast, seqs_after, e) (refl, refl, refl)
  | inr (subs, e) ↦
      rw (broadcast, seqs_after, e)
        (deliver_all-frame (next_payload p ts message h) subs (next_seq p h).1)
]

-- No socket subscribes to a production twice.
abbrev pub IsWell : Hub → Type 0
IsWell h = (p : String) → Distinct (get_or (lookup p h.subscribers) [])

module _ (w : ℕ) where
  broadcast-Owes :
      (p ts : String) (message : Json) (s b : List Json) (h : Hub)
      → IsWell h
      → Owes w s b h
      → Owes w s
          (if has (get_or (lookup p h.subscribers) []) w
            then b ++ next_payload p ts message h ∷ []
            else b)
          (broadcast p ts message h)
  unfolding broadcast has Owes current_seq
  broadcast-Owes p ts message s b h d o = elim (Option-cases (lookup p h.subscribers)) [
    | inl e ↦ rw (broadcast, e) o
    | inr (subs, e) ↦
        let d' : Distinct subs = rw e at (d p) in
        rw (broadcast, e)
          (deliver_all-Owes w (next_payload p ts message h) subs s b (next_seq p h).1 d' o)
  ]

  send-Owes :
      (payload : Json) (s b : List Json) (h : Hub)
      → Owes w s b h
      → Owes w (s ++ payload ∷ []) b (send w payload h)
  unfolding Owes send
  send-Owes payload s b h (sent, buffer, ready) =
      (rw (==_refl w) (ap (λ (l : List Json). l ++ payload ∷ []) sent), buffer, ready)

  begin_snapshot-Owes : (h : Hub) → h.ready w ≡ true → Owes w (h.sent w) [] (begin_snapshot w h)
  unfolding Owes begin_snapshot
  begin_snapshot-Owes h ready =
      (refl, rw (lookup-insert w w [] h.snapshot_buffers, ==_refl w), ready)

  send_all-sent : (ps : List Json) (h : Hub) → (send_all w ps h).sent w ≡ h.sent w ++ ps
  unfolding send_all
  send_all-sent [] h = sym (append-nil (h.sent w))
  send_all-sent (payload ∷ ps) h =
      send_all-sent ps (send w payload h)
      ∙ rw (==_refl w) (append_assoc (h.sent w) (payload ∷ []) ps)

  send_all-buffers :
      (ps : List Json) (h : Hub) → (send_all w ps h).snapshot_buffers ≡ h.snapshot_buffers
  unfolding send_all
  send_all-buffers [] h = refl
  send_all-buffers (payload ∷ ps) h = send_all-buffers ps (send w payload h)

  end_snapshot-flush :
      (h : Hub) (b : List Json)
      → lookup w h.snapshot_buffers ≡ some b
      → h.ready w ≡ true
      → ((end_snapshot w h).sent w ≡ h.sent w ++ b)
        × (lookup w (end_snapshot w h).snapshot_buffers ≡ none)
  unfolding end_snapshot
  end_snapshot-flush h b e ready =
      let dropped = record h { snapshot_buffers = remove w h.snapshot_buffers } in
      rw (end_snapshot, e, ready)
        (
          send_all-sent b dropped,
          rw (send_all-buffers b dropped, lookup-remove w w h.snapshot_buffers, ==_refl w),
        )

  run-Owes :
      (es : List Event) (s b : List Json) (h : Hub)
      → IsWell h
      → Owes w s b h
      → Owes w (s ++ frames es) (b ++ received w h.subscribers h.seq_by_production es) (run w es h)
  unfolding run frames received send current_seq broadcast
  run-Owes [] s b h d o = rw (append-nil s, append-nil b) o
  run-Owes (frame payload ∷ es) s b h d o =
      rw (← append_assoc s (payload ∷ []) (frames es))
        (run-Owes es (s ++ payload ∷ []) b (send w payload h) d (send-Owes payload s b h o))
  run-Owes (cast p ts message ∷ es) s b h d o =
      let h' = broadcast p ts message h in
      let (subs, seqs, _) = broadcast-maps p ts message h in
      let later = run-Owes es s _ h' (λ q. rw subs (d q)) (broadcast-Owes p ts message s b h d o) in
      elim (Bool-cases (has (get_or (lookup p h.subscribers) []) w)) [
        | inl hit ↦ rw hit (rw (subs, seqs, hit, append_assoc b) at later)
        | inr miss ↦ rw miss (rw (subs, seqs, miss) at later)
      ]

  -- While a socket is in its snapshot it is sent the snapshot frames alone; `endSnapshot` then sends
  -- the payloads of all broadcasts to its productions that came in between, in order, and leaves no
  -- buffer, if the socket is open and no production has it twice.
  pub snapshot-in_order :
      (es : List Event) (h : Hub)
      → IsWell h
      → h.ready w ≡ true
      → ((run w es (begin_snapshot w h)).sent w ≡ h.sent w ++ frames es)
        × ((end_snapshot w (run w es (begin_snapshot w h))).sent w
            ≡ h.sent w ++ (frames es ++ received w h.subscribers h.seq_by_production es))
        × (lookup w (end_snapshot w (run w es (begin_snapshot w h))).snapshot_buffers ≡ none)
  unfolding begin_snapshot Owes
  snapshot-in_order es h d ready =
      let (sent, buffer, open_still) =
        run-Owes es (h.sent w) [] (begin_snapshot w h) d (begin_snapshot-Owes h ready) in
      let (flushed, gone) =
        end_snapshot-flush (run w es (begin_snapshot w h)) _ buffer open_still in
      (sent, flushed ∙ rw sent (append_assoc (h.sent w) (frames es) _), gone)
