-- ===== src/RateLimit/Steps.antt =====
-- src/ws/controller.ts: what one message does to the drop window, where it passes and where not.
use open_live.Prelude.{ℕ, Bool, true, false, ◌≡◌, refl, if-holds, leb, length, keep}
use open_live.RateLimit.Keys.{key_eq}
use open_live.RateLimit.{
  Frame, RateLimitState, Connection, check_rate_limit, recent, is_expensive, with_limit,
  handle_checked, handle_rate_limited_message, handle_message, rate_limit_general_max,
  rate_limit_expensive_max,
}

-- The fields of the drop window are the same.
pub record SameDrops (s t : RateLimitState) : Type 0 where
  pub dropped_count : t.dropped_count ≡ s.dropped_count
  pub error_sent : t.error_sent_this_window ≡ s.error_sent_this_window
  pub pending : t.pending_setters ≡ s.pending_setters
  pub timer : t.flush_timer ≡ s.flush_timer

same :
    {s t : RateLimitState}
    → t.dropped_count ≡ s.dropped_count
    → t.error_sent_this_window ≡ s.error_sent_this_window
    → t.pending_setters ≡ s.pending_setters
    → t.flush_timer ≡ s.flush_timer
    → SameDrops s t
same d e p f = record { dropped_count = d; error_sent = e; pending = p; timer = f }

abbrev Keeps : RateLimitState → Bool × RateLimitState → Type 0
Keeps s r = SameDrops s r.1

pub check-SameDrops :
    (s : RateLimitState) (costly : Bool) (now : ℕ) → SameDrops s (check_rate_limit s costly now).1
unfolding check_rate_limit
check-SameDrops s costly now =
    let pruned = record s { general = keep (recent now) s.general } in
    let kept = keep (recent now) s.expensive in
    if-holds (Keeps s) (leb rate_limit_general_max (length pruned.general))
      (same refl refl refl refl)
      (if-holds (Keeps s) costly
        (if-holds (Keeps s) (leb rate_limit_expensive_max (length kept)) (same refl refl refl refl)
          (same refl refl refl refl))
        (same refl refl refl refl))

checked-Holds :
    (P : Connection → Type 0) (now : ℕ) (f : Frame) (c : Connection) (allowed : Bool)
    (s : RateLimitState)
    → P (handle_checked true now f (with_limit s c))
    → P (handle_rate_limited_message now f (with_limit s c))
    → P (handle_checked allowed now f (with_limit s c))
checked-Holds P now f c true s pass drop = pass
checked-Holds P now f c false s pass drop = drop

-- What holds of a message that passes and of one that is dropped holds of the message.
pub handle_message-Holds :
    (P : Connection → Type 0) (now : ℕ) (f : Frame) (c : Connection)
    → ((s : RateLimitState)
        → SameDrops c.rate_limit s
        → P (handle_checked true now f (with_limit s c)))
    → ((s : RateLimitState)
        → SameDrops c.rate_limit s
        → P (handle_rate_limited_message now f (with_limit s c)))
    → P (handle_message now f c)
unfolding handle_message
handle_message-Holds P now f c pass drop =
    let r = check_rate_limit c.rate_limit (is_expensive f.msg) now in
    let kept = check-SameDrops c.rate_limit (is_expensive f.msg) now in
    checked-Holds P now f c r.0 r.1 (pass r.1 kept) (drop r.1 kept)
