-- ===== src/Tally/View.antt =====
-- What a socket has been sent or is still owed from its snapshot buffer, and how `broadcast`
-- (src/services/tally.service.ts) changes it.
use open_live.Prelude.{
  ℕ, Bool, true, false, List, [], ◌∷◌, ◌++◌, Option, none, some, if◌then◌else◌, ◌==◌, string_eq,
  nat_eq, ◌≡◌, refl, sym, ap, ◌∙◌, arith, ◌&&◌, append_assoc, Option-cases, Bool-cases, inl, inr,
}
use open_live.Prelude.Dict.{lookup, insert, has, lookup-insert, Distinct}
use open_live.Prelude.Json.{Json}
use open_live.Tally.{Hub, send, deliver, deliver_all}

-- The payloads sent to a socket, followed by those that wait in its snapshot buffer.
abbrev owed : Option (List Json) → List Json → List Json
owed none sent = sent
owed (some buffer) sent = sent ++ buffer

unfoldable pub view : ℕ → Hub → List Json
view w h = owed (lookup w h.snapshot_buffers) (h.sent w)

deliver_closed : (payload : Json) (ws : ℕ) (h : Hub) → h.ready ws ≡ false → deliver payload ws h ≡ h
unfolding deliver
deliver_closed payload ws h closed = rw closed

deliver_sent :
    (payload : Json) (ws : ℕ) (h : Hub)
    → h.ready ws ≡ true
    → lookup ws h.snapshot_buffers ≡ none
    → deliver payload ws h ≡ send ws payload h
unfolding deliver
deliver_sent payload ws h ready e = rw (ready, e)

deliver_buffered :
    (payload : Json) (ws : ℕ) (h : Hub) (buffer : List Json)
    → h.ready ws ≡ true
    → lookup ws h.snapshot_buffers ≡ some buffer
    → deliver payload ws h
      ≡ record h { snapshot_buffers = insert ws (buffer ++ payload ∷ []) h.snapshot_buffers }
unfolding deliver
deliver_buffered payload ws h buffer ready e = rw (ready, e)

-- Sending past a buffer would change the order, so it is done to unbuffered sockets only.
send-view :
    (payload : Json) (ws w : ℕ) (h : Hub)
    → lookup ws h.snapshot_buffers ≡ none
    → view w (send ws payload h) ≡ (if ws == w then view w h ++ payload ∷ [] else view w h)
unfolding view send
send-view payload ws w h e = elim (Bool-cases (ws == w)) [
  | inl same ↦
      let e' : lookup w h.snapshot_buffers ≡ none = rw (← (nat_eq.beq_iff ws w).0 same) e in
      rw (view, e', same)
  | inr other ↦ rw (view, other)
]

buffer-view :
    (payload : Json) (ws w : ℕ) (h : Hub) (buffer : List Json)
    → lookup ws h.snapshot_buffers ≡ some buffer
    → view w (record h { snapshot_buffers = insert ws (buffer ++ payload ∷ []) h.snapshot_buffers })
      ≡ (if ws == w then view w h ++ payload ∷ [] else view w h)
unfolding view
buffer-view payload ws w h buffer e = elim (Bool-cases (ws == w)) [
  | inl same ↦
      let e' : lookup w h.snapshot_buffers ≡ some buffer = rw (← (nat_eq.beq_iff ws w).0 same) e in
      rw (view, lookup-insert ws w (buffer ++ payload ∷ []) h.snapshot_buffers, same, e')
        (sym (append_assoc (h.sent w) buffer (payload ∷ [])))
  | inr other ↦ rw (view, lookup-insert ws w (buffer ++ payload ∷ []) h.snapshot_buffers, other)
]

-- A delivery adds its payload to what a ready addressee has or is owed, and to nothing else.
pub deliver-view :
    (payload : Json) (ws w : ℕ) (h : Hub)
    → view w (deliver payload ws h)
      ≡ (if ws == w && h.ready ws then view w h ++ payload ∷ [] else view w h)
deliver-view payload ws w h = elim (Bool-cases (h.ready ws)) [
  | inr closed ↦ rw (deliver_closed payload ws h closed) (ground arith)
  | inl ready ↦ elim (Option-cases (lookup ws h.snapshot_buffers)) [
    | inl e ↦ rw (deliver_sent payload ws h ready e, send-view payload ws w h e) (ground arith)
    | inr (buffer, e) ↦
        rw (deliver_buffered payload ws h buffer ready e, buffer-view payload ws w h buffer e)
          (ground arith)
  ]
]

pub deliver-ready : (payload : Json) (ws : ℕ) (h : Hub) → (deliver payload ws h).ready ≡ h.ready
unfolding deliver send
deliver-ready payload ws h = elim (Bool-cases (h.ready ws)) [
  | inr closed ↦ rw closed
  | inl ready ↦ elim (Option-cases (lookup ws h.snapshot_buffers)) [
    | inl e ↦ rw (ready, e)
    | inr (buffer, e) ↦ rw (ready, e)
  ]
]

deliver-frame :
    (payload : Json) (ws : ℕ) (h : Hub)
    → ((deliver payload ws h).subscribers ≡ h.subscribers)
      × ((deliver payload ws h).seq_by_production ≡ h.seq_by_production)
      × ((deliver payload ws h).watch_only_sockets ≡ h.watch_only_sockets)
unfolding deliver send
deliver-frame payload ws h = elim (Bool-cases (h.ready ws)) [
  | inr closed ↦ rw closed (refl, refl, refl)
  | inl ready ↦ elim (Option-cases (lookup ws h.snapshot_buffers)) [
    | inl e ↦ rw (ready, e) (refl, refl, refl)
    | inr (buffer, e) ↦ rw (ready, e) (refl, refl, refl)
  ]
]

pub deliver_all-ready :
    (payload : Json) (subs : List ℕ) (h : Hub) → (deliver_all payload subs h).ready ≡ h.ready
unfolding deliver_all
deliver_all-ready payload [] h = refl
deliver_all-ready payload (ws ∷ subs) h =
    deliver_all-ready payload subs (deliver payload ws h) ∙ deliver-ready payload ws h

pub deliver_all-view :
    (payload : Json) (subs : List ℕ) (w : ℕ) (h : Hub)
    → Distinct subs
    → view w (deliver_all payload subs h)
      ≡ (if has subs w && h.ready w then view w h ++ payload ∷ [] else view w h)
unfolding deliver_all has
deliver_all-view payload [] w h d = refl
deliver_all-view payload (ws ∷ subs) w h (fresh, d) = ground (
  arith,
  nat_eq.beq_iff ws w,
  deliver-view payload ws w h,
  deliver-ready payload ws h,
  ap (λ (r : ℕ → Bool). r w) (deliver-ready payload ws h),
  deliver_all-view payload subs w (deliver payload ws h) d,
)

pub deliver_all-frame :
    (payload : Json) (subs : List ℕ) (h : Hub)
    → ((deliver_all payload subs h).subscribers ≡ h.subscribers)
      × ((deliver_all payload subs h).seq_by_production ≡ h.seq_by_production)
      × ((deliver_all payload subs h).watch_only_sockets ≡ h.watch_only_sockets)
unfolding deliver_all
deliver_all-frame payload [] h = (refl, refl, refl)
deliver_all-frame payload (ws ∷ subs) h =
    let (s, q, o) = deliver_all-frame payload subs (deliver payload ws h) in
    let (s', q', o') = deliver-frame payload ws h in (s ∙ s', q ∙ q', o ∙ o')
