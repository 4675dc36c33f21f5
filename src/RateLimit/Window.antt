-- ===== src/RateLimit/Window.antt =====
-- src/ws/controller.ts: what a drop window has gathered when it drains.
use open_live.Prelude.{
  ℕ, suc, ◌+◌, String, Bool, true, false, ◌||◌, ◌&&◌, not, List, ◌∷◌, ◌++◌, [], Option, none, some,
  ◌≡◌, refl, ap, sym, ◌∙◌, subst, arith, if◌then◌else◌, length, is_some, ◌==◌, string_eq,
}
use open_live.Prelude.Dict.{lookup, lookup-insert}
use open_live.RateLimit.Latest.{is_key, has_no_id, latest, KeepsLatest, latest-KeepsLatest}
use open_live.RateLimit.Keys.{Key, key_eq}
use open_live.RateLimit.{
  Frame, RateLimitState, Outcome, Connection, coalesce_key, with_limit, opened, retained, told_once,
  dropped, counted, handle_rate_limited_message, reply, rate_limit_window_ms,
}
use open_live.RateLimit.Outcome.{accepted, nack, error}

unfoldable pub drop_all : List (ℕ × Frame) → Connection → Connection
unfolding handle_rate_limited_message
drop_all [] c = c
drop_all ((now, f) ∷ rest) c = drop_all rest (handle_rate_limited_message now f c)

abbrev pub errors : List Outcome → ℕ
errors [] = 0
errors (error ∷ rest) = suc (errors rest)
errors (accepted id ∷ rest) = errors rest
errors (nack id ∷ rest) = errors rest

abbrev pub some_without_id : List (ℕ × Frame) → Bool
some_without_id [] = false
some_without_id ((now, f) ∷ rest) = has_no_id f || some_without_id rest

abbrev pub once : Bool → ℕ
once told = if told then 1 else 0

-- A window that is open until `due`, with `n` drops.
record IsWindow (n : ℕ) (told : Bool) (due before : ℕ) (kept : Key → Option Frame) (c : Connection)
    : Type 0 where
  count : c.rate_limit.dropped_count ≡ n
  told_is : c.rate_limit.error_sent_this_window ≡ told
  errors_are : errors c.sent ≡ before + once told
  timer : c.rate_limit.flush_timer ≡ some due
  pending : (key : Key) → lookup key c.rate_limit.pending_setters ≡ kept key

errors-append : (xs ys : List Outcome) → errors (xs ++ ys) ≡ errors xs + errors ys
errors-append [] ys = omega arith
errors-append (error ∷ xs) ys = omega (arith, errors-append xs ys)
errors-append (accepted id ∷ xs) ys = errors-append xs ys
errors-append (nack id ∷ xs) ys = errors-append xs ys

abbrev telling : Connection → Connection
telling c = reply error (with_limit (record c.rate_limit { error_sent_this_window = true }) c)

telling-IsWindow :
    (n due before : ℕ) (told : Bool) (kept : Key → Option Frame) (c : Connection)
    → IsWindow n told due before kept c
    → IsWindow n true due before kept (if told then c else telling c)
telling-IsWindow n due before true kept c w = w
telling-IsWindow n due before false kept c w = record {
  count = w.count;
  told_is = refl;
  errors_are = errors-append c.sent (error ∷ []) ∙ omega (arith, w.errors_are);
  timer = w.timer;
  pending = w.pending;
}

told_once-told :
    (n due before : ℕ) (told : Bool) (kept : Key → Option Frame) (c : Connection)
    → IsWindow n told due before kept c
    → IsWindow n true due before kept (told_once c)
told_once-told n due before told kept c w =
    subst (λ b. IsWindow n true due before kept (if b then c else telling c)) (sym w.told_is)
      (telling-IsWindow n due before told kept c w)

retained-lookup :
    (set : Option Key) (f : Frame) (s : RateLimitState) (key : Key)
    → lookup key (retained set f s).pending_setters
      ≡ (if is_key set key then some f else lookup key s.pending_setters)
retained-lookup none f s key = refl
retained-lookup (some k) f s key = lookup-insert k key f s.pending_setters

nacked-IsWindow :
    (n due before : ℕ) (told : Bool) (kept : Key → Option Frame) (id : String) (c : Connection)
    → IsWindow n told due before kept c
    → IsWindow n told due before kept (reply (nack id) c)
nacked-IsWindow n due before told kept id c w = record {
  count = w.count;
  told_is = w.told_is;
  errors_are = errors-append c.sent (nack id ∷ []) ∙ omega (arith, w.errors_are);
  timer = w.timer;
  pending = w.pending;
}

retained-IsWindow :
    (n due before : ℕ) (told : Bool) (kept : Key → Option Frame) (set : Option Key) (f : Frame)
    (c : Connection)
    → IsWindow n told due before kept c
    → IsWindow n told due before
        (λ key. if is_key set key then some f else kept key)
        (with_limit (retained set f c.rate_limit) c)
retained-IsWindow n due before told kept none f c w = w
retained-IsWindow n due before told kept (some k) f c w = record {
  count = w.count;
  told_is = w.told_is;
  errors_are = w.errors_are;
  timer = w.timer;
  pending = λ key.
      lookup-insert k key f c.rate_limit.pending_setters
      ∙ ap (λ o. if k == key then some f else o) (w.pending key);
}

abbrev kept_with : Option String → Frame → (Key → Option Frame) → Key → Option Frame
kept_with id f kept key =
    if not (is_some id) && is_key (coalesce_key f.msg) key then some f else kept key

dropped-IsWindow :
    (n due before : ℕ) (told : Bool) (kept : Key → Option Frame) (id : Option String) (f : Frame)
    (c : Connection)
    → IsWindow n told due before kept c
    → IsWindow n (told || not (is_some id)) due before (kept_with id f kept) (dropped id f c)
dropped-IsWindow n due before told kept (some id) f c w =
    subst (λ b. IsWindow n b due before kept (reply (nack id) c)) (ground arith)
      (nacked-IsWindow n due before told kept id c w)
dropped-IsWindow n due before told kept none f c w =
    let d = with_limit (retained (coalesce_key f.msg) f c.rate_limit) c in
    let now_kept = λ (key : Key). if is_key (coalesce_key f.msg) key then some f else kept key in
    subst (λ b. IsWindow n b due before now_kept (told_once d)) (ground arith)
      (told_once-told n due before told now_kept d
        (retained-IsWindow n due before told kept (coalesce_key f.msg) f c w))

counted-IsWindow :
    (n due before : ℕ) (told : Bool) (kept : Key → Option Frame) (c : Connection)
    → IsWindow n told due before kept c
    → IsWindow (n + 1) told due before kept (with_limit (counted c.rate_limit) c)
counted-IsWindow n due before told kept c w = record {
  count = ap (λ m. m + 1) w.count;
  told_is = w.told_is;
  errors_are = w.errors_are;
  timer = w.timer;
  pending = w.pending;
}

-- One more drop in an open window.
drop-IsWindow :
    (n due before : ℕ) (told : Bool) (kept : Key → Option Frame) (now : ℕ) (f : Frame)
    (c : Connection)
    → IsWindow n told due before kept c
    → IsWindow
        (n + 1)
        (told || has_no_id f)
        due
        before
        (kept_with f.cmd_id f kept)
        (handle_rate_limited_message now f c)
unfolding handle_rate_limited_message
drop-IsWindow n due before told kept now f c w =
    subst
      (λ timer.
        IsWindow (n + 1) (told || has_no_id f) due before (kept_with f.cmd_id f kept)
          (dropped f.cmd_id f (with_limit (counted (opened timer now c.rate_limit)) c)))
      (sym w.timer)
      (dropped-IsWindow (n + 1) due before told kept f.cmd_id f
        (with_limit (counted c.rate_limit) c) (counted-IsWindow n due before told kept c w))

drop_all-IsWindow :
    (n due before : ℕ) (told : Bool) (kept : Key → Option Frame) (drops : List (ℕ × Frame))
    (c : Connection)
    → IsWindow n told due before kept c
    → IsWindow
        (n + length drops)
        (told || some_without_id drops)
        due
        before
        (λ key. latest key (kept key) drops)
        (drop_all drops c)
unfolding drop_all
drop_all-IsWindow n due before told kept [] c w =
    subst (λ b. IsWindow (n + 0) b due before kept c) (ground arith)
      (subst (λ m. IsWindow m told due before kept c) (omega arith) w)
drop_all-IsWindow n due before told kept ((now, f) ∷ rest) c w =
    let d = drop_all rest (handle_rate_limited_message now f c) in
    let last = λ (key : Key). latest key (kept_with f.cmd_id f kept key) rest in
    subst (λ b. IsWindow (n + suc (length rest)) b due before last d) (ground arith)
      (subst (λ m. IsWindow m ((told || has_no_id f) || some_without_id rest) due before last d)
        (omega arith)
        (drop_all-IsWindow (n + 1) due before (told || has_no_id f) (kept_with f.cmd_id f kept) rest
          (handle_rate_limited_message now f c) (drop-IsWindow n due before told kept now f c w)))

-- The window that the first drop opens, before it counts it.
opened-IsWindow :
    (now : ℕ) (c : Connection)
    → IsWindow 0 false
        (now + rate_limit_window_ms)
        (errors c.sent)
        (λ key. none)
        (with_limit (opened none now c.rate_limit) c)
unfolding lookup
opened-IsWindow now c = record {
  count = refl;
  told_is = refl;
  errors_are = omega arith;
  timer = refl;
  pending = λ key. refl;
}

-- Where no drop window is open and messages are then dropped in turn, the first at `now`, the window
-- is due one second after `now`; it has counted every drop, sent one ERROR frame where any of them
-- had no id and none otherwise, and keeps, for each target of a setter by its type and the fields
-- that name the target, the last frame without an id that sets it, and nothing else.
pub drop_all-window :
    (now : ℕ) (f : Frame) (rest : List (ℕ × Frame)) (c : Connection)
    → c.rate_limit.flush_timer ≡ none
    → let drops = (now, f) ∷ rest in
      let d = drop_all drops c in
      (d.rate_limit.flush_timer ≡ some (now + rate_limit_window_ms))
      × (d.rate_limit.dropped_count ≡ length drops)
      × (errors d.sent ≡ errors c.sent + once (some_without_id drops))
      × KeepsLatest drops (λ key. lookup key d.rate_limit.pending_setters)
unfolding drop_all handle_rate_limited_message
drop_all-window now f rest c shut =
    let fresh = with_limit (opened none now c.rate_limit) c in
    let first : handle_rate_limited_message now f c ≡ handle_rate_limited_message now f fresh =
      ap (λ timer. dropped f.cmd_id f (with_limit (counted (opened timer now c.rate_limit)) c))
        shut in
    let w =
      drop_all-IsWindow 0 (now + rate_limit_window_ms) (errors c.sent) false (λ key. none)
        ((now, f) ∷ rest) fresh (opened-IsWindow now c) in
    subst
      (λ d.
        (d.rate_limit.flush_timer ≡ some (now + rate_limit_window_ms))
        × (d.rate_limit.dropped_count ≡ length ((now, f) ∷ rest))
        × (errors d.sent ≡ errors c.sent + once (some_without_id ((now, f) ∷ rest)))
        × KeepsLatest ((now, f) ∷ rest) (λ key. lookup key d.rate_limit.pending_setters))
      (ap (drop_all rest) (sym first))
      (
        w.timer,
        w.count ∙ omega arith,
        w.errors_are,
        latest-KeepsLatest ((now, f) ∷ rest) _ w.pending,
      )
