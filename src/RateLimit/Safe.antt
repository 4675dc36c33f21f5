-- ===== src/RateLimit/Safe.antt =====
-- src/ws/controller.ts: one message leaves a setter of the drop window handled or kept.
use open_live.Prelude.{
  ℕ, String, true, false, List, ◌∷◌, ◌++◌, [], Option, none, some, ◌≡◌, refl, ap, sym, ◌∙◌, ◌⊎◌,
  inl, inr, subst, arith, if◌then◌else◌, if-holds, is_some, get_or, ◌==◌, ==_refl, string_eq,
  append_assoc,
}
use open_live.Prelude.Dict.{lookup, lookup-insert}
use open_live.RateLimit.Keys.{Key, key_eq}
use open_live.RateLimit.{
  Frame, RateLimitState, Connection, coalesce_key, with_limit, opened, retained, told_once, dropped,
  counted, handle_rate_limited_message, acknowledged, handle_message,
}
use open_live.RateLimit.Setters.{IsSetter}
use open_live.RateLimit.Steps.{SameDrops, handle_message-Holds}

-- Since `base` was handled, the frame went on to its handler; or an open window keeps it.
abbrev pub IsHandled : List Frame → Frame → List Frame → Type 0
IsHandled base f handled =
    (before : List Frame) × (after : List Frame) × (handled ≡ base ++ (before ++ f ∷ after))

abbrev pub IsRetained : Key → Frame → RateLimitState → Type 0
IsRetained key f s = (lookup key s.pending_setters ≡ some f) × (is_some s.flush_timer ≡ true)

abbrev pub IsSafe : List Frame → Key → Frame → Connection → Type 0
IsSafe base key f c = IsHandled base f c.handled ⊎ IsRetained key f c.rate_limit

-- What is handled begins with `base`.
abbrev pub Extends : List Frame → List Frame → Type 0
Extends base handled = (more : List Frame) × (handled ≡ base ++ more)

IsHandled-snoc :
    (base : List Frame) (f g : Frame) (l : List Frame)
    → IsHandled base f l
    → IsHandled base f (l ++ g ∷ [])
IsHandled-snoc base f g l (before, after, e) = (
  before,
  after ++ g ∷ [],
  ap (λ m. m ++ g ∷ []) e
      ∙ (append_assoc base (before ++ f ∷ after) (g ∷ [])
          ∙ ap (λ m. base ++ m) (append_assoc before (f ∷ after) (g ∷ []))),
)

pub Extends-snoc :
    (base : List Frame) (g : Frame) (l : List Frame) → Extends base l → Extends base (l ++ g ∷ [])
Extends-snoc base g l (more, e) =
    (more ++ g ∷ [], ap (λ m. m ++ g ∷ []) e ∙ append_assoc base more (g ∷ []))

Extends-IsHandled :
    (base : List Frame) (f : Frame) (l : List Frame)
    → Extends base l
    → IsHandled base f (l ++ f ∷ [])
Extends-IsHandled base f l (more, e) =
    (more, [], ap (λ m. m ++ f ∷ []) e ∙ append_assoc base more (f ∷ []))

-- `told_once`, ACK and NACK change neither what is handled nor what is kept.
told_once-IsSafe :
    (base : List Frame) (key : Key) (f : Frame) (c : Connection)
    → IsSafe base key f c
    → IsSafe base key f (told_once c)
told_once-IsSafe base key f c h =
    if-holds (IsSafe base key f) c.rate_limit.error_sent_this_window h h

acknowledged-IsSafe :
    (base : List Frame) (key : Key) (f : Frame) (id : Option String) (c : Connection)
    → IsSafe base key f c
    → IsSafe base key f (acknowledged id c)
acknowledged-IsSafe base key f none c h = h
acknowledged-IsSafe base key f (some id) c h = h

opened-timer :
    (timer : Option ℕ) (now : ℕ) (s : RateLimitState)
    → s.flush_timer ≡ timer
    → is_some (opened timer now s).flush_timer ≡ true
opened-timer none now s e = refl
opened-timer (some due) now s e = ap is_some e

opened-IsRetained :
    (timer : Option ℕ) (key : Key) (f : Frame) (now : ℕ) (s : RateLimitState)
    → s.flush_timer ≡ timer
    → IsRetained key f s
    → IsRetained key f (opened timer now s)
opened-IsRetained none key f now s e (kept, up) = absurd (ground (arith, ap is_some e, up))
opened-IsRetained (some due) key f now s e h = h

retained-IsRetained :
    (set : Option Key) (key : Key) (f g : Frame) (s : RateLimitState)
    → ((k : Key) → set ≡ some k → (k == key) ≡ false)
    → IsRetained key f s
    → IsRetained key f (retained set g s)
retained-IsRetained none key f g s other h = h
retained-IsRetained (some k) key f g s other (kept, up) = (
  lookup-insert k key g s.pending_setters
      ∙ (ap (λ b. if b then some g else lookup key s.pending_setters) (other k refl) ∙ kept),
  up,
)

-- A setter that is dropped is kept.
setter-IsRetained :
    (set : Option Key) (key : Key) (f : Frame) (s : RateLimitState)
    → set ≡ some key
    → is_some s.flush_timer ≡ true
    → IsRetained key f (retained set f s)
setter-IsRetained none key f s e up = cc
setter-IsRetained (some k) key f s e up =
    (lookup-insert k key f s.pending_setters ∙ ground (arith, e, ==_refl key), up)

drop-setter :
    (base : List Frame) (key : Key) (now : ℕ) (f : Frame) (c : Connection)
    → IsSetter key f
    → IsSafe base key f (handle_rate_limited_message now f c)
unfolding handle_rate_limited_message
drop-setter base key now f c (anonymous, e) =
    let s = counted (opened c.rate_limit.flush_timer now c.rate_limit) in
    subst (λ id. IsSafe base key f (dropped id f (with_limit s c))) (sym anonymous)
      (told_once-IsSafe base key f (with_limit (retained (coalesce_key f.msg) f s) c) (
        inr (
          setter-IsRetained (coalesce_key f.msg) key f s e
            (opened-timer c.rate_limit.flush_timer now c.rate_limit refl))))

other_key : (key k j : Key) → (k == key) ≡ false → some k ≡ some j → (j == key) ≡ false
other_key key k j other e = subst (λ l. (l == key) ≡ false) (ap (λ o. get_or o k) e) other

drop-other :
    (base : List Frame) (key k : Key) (now : ℕ) (f g : Frame) (c : Connection)
    → IsSetter k g
    → (k == key) ≡ false
    → IsSafe base key f c
    → IsSafe base key f (handle_rate_limited_message now g c)
unfolding handle_rate_limited_message
drop-other base key k now f g c (anonymous, e) other h =
    let s = counted (opened c.rate_limit.flush_timer now c.rate_limit) in
    let d = with_limit (retained (coalesce_key g.msg) g s) c in
    let differs : (j : Key) → coalesce_key g.msg ≡ some j → (j == key) ≡ false =
      λ j ej. other_key key k j other (sym e ∙ ej) in
    subst (λ id. IsSafe base key f (dropped id g (with_limit s c))) (sym anonymous)
      (told_once-IsSafe base key f d (elim h [
        | inl done ↦ inl done
        | inr kept ↦ inr (
            retained-IsRetained (coalesce_key g.msg) key f g s differs
              (opened-IsRetained c.rate_limit.flush_timer key f now c.rate_limit refl kept))
      ]))

SameDrops-IsSafe :
    (base : List Frame) (key : Key) (f : Frame) (c : Connection) (s : RateLimitState)
    → SameDrops c.rate_limit s
    → IsSafe base key f c
    → IsSafe base key f (with_limit s c)
SameDrops-IsSafe base key f c s k (inl done) = inl done
SameDrops-IsSafe base key f c s k (inr (kept, up)) =
    inr (ap (lookup key) k.pending ∙ kept, ap is_some k.timer ∙ up)

pub message-setter :
    (base : List Frame) (key : Key) (now : ℕ) (f : Frame) (c : Connection)
    → IsSetter key f
    → Extends base c.handled
    → IsSafe base key f (handle_message now f c)
message-setter base key now f c is begun =
    handle_message-Holds (IsSafe base key f) now f c
      (λ s same.
        acknowledged-IsSafe base key f f.cmd_id
          (record (with_limit s c) { handled = c.handled ++ f ∷ [] })
          (inl (Extends-IsHandled base f c.handled begun)))
      (λ s same. drop-setter base key now f (with_limit s c) is)

passed-IsSafe :
    (base : List Frame) (key : Key) (f g : Frame) (c : Connection)
    → IsSafe base key f c
    → IsSafe base key f (record c { handled = c.handled ++ g ∷ [] })
passed-IsSafe base key f g c (inl done) = inl (IsHandled-snoc base f g c.handled done)
passed-IsSafe base key f g c (inr kept) = inr kept

pub message-other :
    (base : List Frame) (key k : Key) (now : ℕ) (f g : Frame) (c : Connection)
    → IsSetter k g
    → (k == key) ≡ false
    → IsSafe base key f c
    → IsSafe base key f (handle_message now g c)
message-other base key k now f g c is other h =
    handle_message-Holds (IsSafe base key f) now g c
      (λ s same.
        acknowledged-IsSafe base key f g.cmd_id
          (record (with_limit s c) { handled = c.handled ++ g ∷ [] })
          (passed-IsSafe base key f g (with_limit s c) (SameDrops-IsSafe base key f c s same h)))
      (λ s same.
        drop-other base key k now f g (with_limit s c) is other
          (SameDrops-IsSafe base key f c s same h))
