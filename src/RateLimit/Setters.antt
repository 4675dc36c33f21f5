-- ===== src/RateLimit/Setters.antt =====
-- src/ws/controller.ts: what a drop window keeps are setters, the latest of each target.
use open_live.Prelude.{
  ℕ, String, Bool, false, List, ◌∷◌, [], Option, none, some, ◌≡◌, refl, sym, ◌∙◌, subst, arith,
  if◌then◌else◌, if-holds, ◌==◌, string_eq, ltb, leb, Bool-cases, inl, inr,
}
use open_live.Prelude.Dict.{lookup, lookup-insert, insert}
use open_live.RateLimit.Keys.{Key, key_eq}
use open_live.RateLimit.{
  Frame, RateLimitState, Connection, coalesce_key, with_limit, opened, retained, dropped, counted,
  handle_rate_limited_message, acknowledged, handle_message, replay, drain_drop_window, Moment,
  happen, happen_all, fire,
}
use open_live.RateLimit.Moment.{arrives, ticks}
use open_live.RateLimit.Steps.{handle_message-Holds}

-- A setter without an id, under its own key.
abbrev pub IsSetter : Key → Frame → Type 0
IsSetter key f = (f.cmd_id ≡ none) × (coalesce_key f.msg ≡ some key)

-- Setters under their own keys, and no key twice.
abbrev pub IsFresh : Key → List (Key × Frame) → Type 0
IsFresh key l = lookup key l ≡ none

abbrev pub AreSetters : List (Key × Frame) → Type 0
AreSetters [] = Unit
AreSetters ((key, f) ∷ rest) = IsSetter key f × IsFresh key rest × AreSetters rest

abbrev HasSetters : Connection → Type 0
HasSetters c = AreSetters c.rate_limit.pending_setters

insert-IsFresh :
    (k key : Key) (f : Frame) (l : List (Key × Frame))
    → (key == k) ≡ false
    → IsFresh k l
    → IsFresh k (insert key f l)
insert-IsFresh k key f l other fresh = lookup-insert key k f l ∙ ground (arith, other, fresh)

insert-AreSetters :
    (key : Key) (f : Frame) (l : List (Key × Frame))
    → IsSetter key f
    → AreSetters l
    → AreSetters (insert key f l)
unfolding insert lookup
insert-AreSetters key f [] is h = (is, refl, tt)
insert-AreSetters key f ((k, g) ∷ l) is (old, once, are) =
    let P = λ (b : Bool). AreSetters (if b then (k, f) ∷ l else (k, g) ∷ insert key f l) in
    elim (Bool-cases (k == key)) [
      | inl same ↦
          subst P (sym same)
            (subst (λ j. IsSetter j f) (sym ((key_eq.beq_iff k key).0 same)) is, once, are)
      | inr other ↦ subst P (sym other) (
        old,
        insert-IsFresh k key f l (ground (arith, other, key_eq.beq_iff k key, key_eq.beq_iff key k))
            once,
        insert-AreSetters key f l is are,
      )
    ]

opened-AreSetters :
    (timer : Option ℕ) (now : ℕ) (s : RateLimitState)
    → AreSetters s.pending_setters
    → AreSetters (opened timer now s).pending_setters
opened-AreSetters none now s h = tt
opened-AreSetters (some due) now s h = h

retained-AreSetters :
    (set : Option Key) (f : Frame) (s : RateLimitState)
    → f.cmd_id ≡ none
    → coalesce_key f.msg ≡ set
    → AreSetters s.pending_setters
    → AreSetters (retained set f s).pending_setters
retained-AreSetters none f s e k h = h
retained-AreSetters (some key) f s e k h = insert-AreSetters key f s.pending_setters (e, k) h

dropped-AreSetters :
    (id : Option String) (f : Frame) (c : Connection)
    → f.cmd_id ≡ id
    → HasSetters c
    → HasSetters (dropped id f c)
dropped-AreSetters (some id) f c e h = h
dropped-AreSetters none f c e h =
    let kept = retained-AreSetters (coalesce_key f.msg) f c.rate_limit e refl h in
    if-holds HasSetters (retained (coalesce_key f.msg) f c.rate_limit).error_sent_this_window kept
      kept

acknowledged-AreSetters :
    (id : Option String) (c : Connection) → HasSetters c → HasSetters (acknowledged id c)
acknowledged-AreSetters none c h = h
acknowledged-AreSetters (some id) c h = h

handle_message-AreSetters :
    (now : ℕ) (f : Frame) (c : Connection) → HasSetters c → HasSetters (handle_message now f c)
unfolding handle_rate_limited_message
handle_message-AreSetters now f c h =
    handle_message-Holds HasSetters now f c
      (λ s same. acknowledged-AreSetters f.cmd_id _ (subst AreSetters (sym same.pending) h))
      (λ s same.
        dropped-AreSetters f.cmd_id f (with_limit (counted (opened s.flush_timer now s)) c) refl
          (opened-AreSetters s.flush_timer now s (subst AreSetters (sym same.pending) h)))

replay-AreSetters :
    (now : ℕ) (l : List (Key × Frame)) (c : Connection) → HasSetters c → HasSetters (replay now l c)
unfolding replay
replay-AreSetters now [] c h = h
replay-AreSetters now ((key, f) ∷ rest) c h =
    replay-AreSetters now rest (handle_message now f c) (handle_message-AreSetters now f c h)

drain-AreSetters : (now : ℕ) (c : Connection) → HasSetters (drain_drop_window now c)
unfolding drain_drop_window
drain-AreSetters now c =
    replay-AreSetters now c.rate_limit.pending_setters _
      (if-holds HasSetters (ltb 0 c.rate_limit.dropped_count) tt tt)

fire-AreSetters :
    (timer : Option ℕ) (now : ℕ) (c : Connection) → HasSetters c → HasSetters (fire timer now c)
fire-AreSetters none now c h = h
fire-AreSetters (some due) now c h = if-holds HasSetters (leb due now) (drain-AreSetters now c) h

pub happen_all-AreSetters :
    (l : List (ℕ × Moment)) (c : Connection) → HasSetters c → HasSetters (happen_all l c)
unfolding happen_all happen
happen_all-AreSetters [] c h = h
happen_all-AreSetters ((now, arrives f) ∷ rest) c h =
    happen_all-AreSetters rest (handle_message now f c) (handle_message-AreSetters now f c h)
happen_all-AreSetters ((now, ticks) ∷ rest) c h =
    happen_all-AreSetters rest _ (fire-AreSetters c.rate_limit.flush_timer now c h)
