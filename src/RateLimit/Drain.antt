-- ===== src/RateLimit/Drain.antt =====
-- src/ws/controller.ts: what `drainDropWindow` does with the setters that the window kept.
use open_live.Prelude.{
  ℕ, String, List, ◌∷◌, ◌++◌, [], Option, none, some, ◌≡◌, ap, sym, inl, inr, subst, arith,
  if◌then◌else◌, if-holds, get_or, ◌==◌, string_eq, append-nil, ltb, Bool-cases,
}
use open_live.Prelude.Dict.{lookup}
use open_live.RateLimit.Keys.{Key, key_eq}
use open_live.RateLimit.{
  Frame, Connection, coalesce_key, with_limit, opened, retained, dropped, counted,
  handle_rate_limited_message, acknowledged, handle_message, replay, closed, warn,
  drain_drop_window, new_connection, Moment, happen_all,
}
use open_live.RateLimit.Setters.{IsSetter, IsFresh, AreSetters, happen_all-AreSetters}
use open_live.RateLimit.Steps.{handle_message-Holds}
use open_live.RateLimit.Safe.{IsSafe, Extends, Extends-snoc, message-setter, message-other}

replay-others :
    (base : List Frame) (key : Key) (f : Frame) (now : ℕ) (l : List (Key × Frame)) (c : Connection)
    → AreSetters l
    → IsFresh key l
    → IsSafe base key f c
    → IsSafe base key f (replay now l c)
unfolding replay lookup
replay-others base key f now [] c are fresh h = h
replay-others base key f now ((k, g) ∷ rest) c (is, once, are) fresh h =
    elim (Bool-cases (k == key)) [
      | inl e ↦ absurd (ground (arith, e, fresh))
      | inr e ↦
          replay-others base key f now rest (handle_message now g c) are (ground (arith, e, fresh))
            (message-other base key k now f g c is e h)
    ]

dropped-Extends :
    (base : List Frame) (id : Option String) (f : Frame) (c : Connection)
    → Extends base c.handled
    → Extends base (dropped id f c).handled
dropped-Extends base (some id) f c begun = begun
dropped-Extends base none f c begun =
    if-holds (λ (d : Connection). Extends base d.handled)
      (retained (coalesce_key f.msg) f c.rate_limit).error_sent_this_window begun begun

acknowledged-Extends :
    (base : List Frame) (id : Option String) (c : Connection)
    → Extends base c.handled
    → Extends base (acknowledged id c).handled
acknowledged-Extends base none c begun = begun
acknowledged-Extends base (some id) c begun = begun

message-Extends :
    (base : List Frame) (now : ℕ) (f : Frame) (c : Connection)
    → Extends base c.handled
    → Extends base (handle_message now f c).handled
unfolding handle_rate_limited_message
message-Extends base now f c begun =
    handle_message-Holds (λ (d : Connection). Extends base d.handled) now f c
      (λ s same.
        acknowledged-Extends base f.cmd_id
          (record (with_limit s c) { handled = c.handled ++ f ∷ [] })
          (Extends-snoc base f c.handled begun))
      (λ s same.
        dropped-Extends base f.cmd_id f (with_limit (counted (opened s.flush_timer now s)) c) begun)

replay-first :
    (base : List Frame) (key : Key) (f : Frame) (now : ℕ) (rest : List (Key × Frame))
    (c : Connection)
    → IsSetter key f
    → IsFresh key rest
    → AreSetters rest
    → Extends base c.handled
    → IsSafe base key f (replay now rest (handle_message now f c))
replay-first base key f now rest c is once are begun =
    replay-others base key f now rest (handle_message now f c) are once
      (message-setter base key now f c is begun)

replay-IsSafe :
    (base : List Frame) (key : Key) (f : Frame) (now : ℕ) (l : List (Key × Frame)) (c : Connection)
    → AreSetters l
    → lookup key l ≡ some f
    → Extends base c.handled
    → IsSafe base key f (replay now l c)
unfolding replay lookup
replay-IsSafe base key f now [] c are e begun = cc
replay-IsSafe base key f now ((k, g) ∷ rest) c (is, once, are) e begun =
    elim (Bool-cases (k == key)) [
      | inl same ↦
          let found : some g ≡ some f =
            subst (λ b. (if b then some g else lookup key rest) ≡ some f) same e in
          subst (λ j. IsSafe base j f (replay now rest (handle_message now g c)))
            ((key_eq.beq_iff k key).0 same)
            (subst (λ h. IsSafe base k h (replay now rest (handle_message now g c)))
              (ap (λ o. get_or o g) found) (replay-first base k g now rest c is once are begun))
      | inr other ↦
          replay-IsSafe base key f now rest (handle_message now g c) are (ground (arith, e, other))
            (message-Extends base now g c begun)
    ]

-- However messages arrive and windows drain on a new connection, when the window drains then, every
-- setter that it keeps goes on to its handler during that drain, or is kept again, the latest of
-- its target, by the window that the replay opens.
pub drain-IsSafe :
    (moments : List (ℕ × Moment)) (now : ℕ) (key : Key) (f : Frame)
    → let c = happen_all moments new_connection in
      lookup key c.rate_limit.pending_setters ≡ some f
      → IsSafe c.handled key f (drain_drop_window now c)
unfolding drain_drop_window
drain-IsSafe moments now key f kept =
    let c = happen_all moments new_connection in
    let start = warn c.rate_limit.dropped_count (with_limit (closed c.rate_limit) c) in
    let begun : Extends c.handled start.handled =
      if-holds (λ (d : Connection). Extends c.handled d.handled) (ltb 0 c.rate_limit.dropped_count)
        ([], sym (append-nil c.handled)) ([], sym (append-nil c.handled)) in
    replay-IsSafe c.handled key f now c.rate_limit.pending_setters start
      (happen_all-AreSetters moments new_connection tt) kept begun
