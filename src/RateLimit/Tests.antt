-- ===== src/RateLimit/Tests.antt =====
-- The theorems on the rate limit of src/ws/controller.ts at bursts of messages.
use open_live.Prelude.{
  ℕ, zero, suc, String, Bool, true, false, List, ◌∷◌, ◌++◌, [], Option, none, some, ◌≡◌, refl,
  arith, length, string_eq, ltb,
}
use open_live.Prelude.Dict.{lookup}
use open_live.RateLimit.Keys.{key_eq}
use open_live.RateLimit.Keys.Part.{text, number}
use open_live.RateLimit.{
  InboundMessage, Frame, Connection, RateLimitState, create_rate_limit_state, new_connection,
  coalesce_key, happen_all, drain_drop_window, Moment, rate_limit_window_ms, check_rate_limit,
  closed,
}
use open_live.RateLimit.InboundMessage.{set_effect, aux_send_set, monitor_set, command}
use open_live.RateLimit.EffectTarget.{effect_input}
use open_live.RateLimit.Moment.{arrives, ticks}
use open_live.RateLimit.Windows.{check_all, allow_all, InOrder, check_all-allow_all}
use open_live.RateLimit.Bounds.{let_through, IsLimited, let_through-IsLimited}
use open_live.RateLimit.Latest.{KeepsLatest}
use open_live.RateLimit.Window.{drop_all, errors, drop_all-window}
use open_live.RateLimit.Drain.{drain-IsSafe}
use open_live.RateLimit.Safe.{IsSafe}
use open_live.RateLimit.Stale.{happen_all-stale}

abbrev repeat {ℓ} : {A : Type ℓ} → ℕ → A → List A
repeat zero a = []
repeat (suc n) a = a ∷ repeat n a

-- Five macros at once, a sixth, and one after a second.
abbrev macros : List (Bool × ℕ)
macros =
    (true, 10) ∷ (true, 10) ∷ (true, 10) ∷ (true, 10) ∷ (true, 11) ∷ (true, 12) ∷ (true, 1010) ∷ []

abbrev tests : List Bool
tests = true ∷ true ∷ true ∷ true ∷ true ∷ false ∷ true ∷ []

in_order : InOrder 0 macros
in_order = (
  omega arith,
  (omega arith, (omega arith, (omega arith, (omega arith, (omega arith, (omega arith, tt)))))),
)

macros_checked : check_all macros create_rate_limit_state ≡ tests
unfolding check_all check_rate_limit
macros_checked = refl

check_all-allow_all_example : check_all macros create_rate_limit_state ≡ allow_all macros []
check_all-allow_all_example = check_all-allow_all macros in_order

let_through-IsLimited_example : IsLimited (let_through macros create_rate_limit_state [])
let_through-IsLimited_example = let_through-IsLimited macros in_order

abbrev macro_frame : String → Frame
macro_frame id = record { msg = command "MACRO_EXEC"; cmd_id = some id; raw = "{}" }

abbrev volume : String → Frame
volume raw = record { msg = monitor_set; cmd_id = none; raw = raw }

abbrev effect : Frame
effect = record { msg = set_effect (effect_input 12); cmd_id = none; raw = "{}" }

effect_key : coalesce_key effect.msg ≡ some (text "SET_EFFECT" ∷ text "input" ∷ number 12 ∷ [])
unfolding coalesce_key
effect_key = refl

abbrev six_macros : List (ℕ × Moment)
six_macros =
    repeat 5 (10, arrives (macro_frame "a"))
    ++ (11, arrives (macro_frame "b")) ∷ (12, arrives (volume "1")) ∷ (1100, ticks) ∷ []

abbrev drag : List (ℕ × Frame)
drag = (6, volume "2") ∷ (7, effect) ∷ (8, volume "3") ∷ (9, macro_frame "a") ∷ []

drop_all-window_example :
    let drops = (5, volume "1") ∷ drag in
    let d = drop_all drops new_connection in
    (d.rate_limit.flush_timer ≡ some 1005)
    × (d.rate_limit.dropped_count ≡ 5)
    × (errors d.sent ≡ 1)
    × KeepsLatest drops (λ key. lookup key d.rate_limit.pending_setters)
drop_all-window_example = drop_all-window 5 (volume "1") drag new_connection refl

-- Twenty messages fill the window, and one more setter is kept.
abbrev flood : List (ℕ × Moment)
flood = repeat 20 (0, arrives (volume "0")) ++ (5, arrives (volume "old")) ∷ []

old_kept :
    lookup (text "MONITOR_SET" ∷ []) (happen_all flood new_connection).rate_limit.pending_setters
    ≡ some (volume "old")
unfolding happen_all open_live.RateLimit.happen open_live.RateLimit.handle_message check_rate_limit
    open_live.RateLimit.is_expensive open_live.RateLimit.handle_rate_limited_message coalesce_key
    lookup open_live.Prelude.Dict.insert
old_kept = refl

drain-IsSafe_example :
    let c = happen_all flood new_connection in
    IsSafe c.handled (text "MONITOR_SET" ∷ []) (volume "old") (drain_drop_window 1005 c)
drain-IsSafe_example = drain-IsSafe flood 1005 (text "MONITOR_SET" ∷ []) (volume "old") old_kept

-- A socket whose window keeps `old` until 1005.
abbrev dragged : Connection
dragged = record {
  rate_limit = record {
    general = repeat 20 0;
    expensive = [];
    dropped_count = 1;
    error_sent_this_window = true;
    pending_setters = (text "MONITOR_SET" ∷ [], volume "old") ∷ [];
    flush_timer = some 1005;
  };
  sent = [];
  handled = repeat 20 (volume "0");
  warned = [];
}

happen_all-stale_example :
    (happen_all ((1000, arrives (volume "new")) ∷ (1005, ticks) ∷ []) dragged).handled
    ≡ repeat 20 (volume "0") ++ volume "new" ∷ volume "old" ∷ []
unfolding coalesce_key check_rate_limit
happen_all-stale_example =
    happen_all-stale 1000 1005 (text "MONITOR_SET" ∷ []) (volume "old") (volume "new") dragged refl
      refl refl refl refl refl refl
