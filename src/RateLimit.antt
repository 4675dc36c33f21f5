-- ===== src/RateLimit.antt =====
-- src/ws/controller.ts: the rate limit of one socket's messages: the two sliding windows, the drop
-- window that coalesces what they refuse, and its drain. Instants are milliseconds.
pub mod Keys
pub mod Windows
pub mod Bounds
pub mod Steps
pub mod Targets
pub mod Latest
pub mod Replies
pub mod Window
pub mod Setters
pub mod Safe
pub mod Drain
pub mod Stale
mod Tests
use open_live.Prelude.{
  ℕ, zero, suc, ◌+◌, ◌/◌, ◌%◌, String, Bool, true, false, List, [], ◌∷◌, ◌++◌, Option, none, some,
  if◌then◌else◌, ltb, leb, string_eq, length, keep,
}
use open_live.Prelude.Dict.{insert, has}
use open_live.RateLimit.Keys.{Part, Key, key_eq}
use open_live.RateLimit.Keys.Part.{text, number}

abbrev pub rate_limit_general_max : ℕ
rate_limit_general_max = 20

abbrev pub rate_limit_expensive_max : ℕ
rate_limit_expensive_max = 5

abbrev pub rate_limit_window_ms : ℕ
rate_limit_window_ms = 1000

abbrev pub expensive_message_types : List String
expensive_message_types = "MACRO_EXEC" ∷ "GO_LIVE" ∷ "CUT_STREAM" ∷ "HTML_SOURCE_EVENT" ∷ []

pub data EffectTarget : Type 0 where
  master : EffectTarget
  effect_input : ℕ → EffectTarget

-- The setters with the fields that name their target; any other message by its type.
pub data InboundMessage : Type 0 where
  set_effect : EffectTarget → InboundMessage
  audio_set audio_proc_set : String → String → InboundMessage
  aux_send_set grp_send_set : String → ℕ → InboundMessage
  aux_master_set grp_master_set : ℕ → InboundMessage
  monitor_set : InboundMessage
  source_offset_set source_audio_offset_set : String → InboundMessage
  command : String → InboundMessage

-- `raw` is the text and `msg` what it parses to.
pub record Frame : Type 0 where
  pub msg : InboundMessage
  pub cmd_id : Option String
  pub raw : String

abbrev effect_target : EffectTarget → Key
effect_target master = text "master" ∷ []
effect_target (effect_input n) = text "input" ∷ number n ∷ []

unfoldable pub coalesce_key : InboundMessage → Option Key
coalesce_key (set_effect target) = some (text "SET_EFFECT" ∷ effect_target target)
coalesce_key (audio_set element_id property) =
    some (text "AUDIO_SET" ∷ text element_id ∷ text property ∷ [])
coalesce_key (audio_proc_set element_id stage) =
    some (text "AUDIO_PROC_SET" ∷ text element_id ∷ text stage ∷ [])
coalesce_key (aux_send_set element_id aux_bus) =
    some (text "AUX_SEND_SET" ∷ text element_id ∷ number aux_bus ∷ [])
coalesce_key (grp_send_set element_id grp_bus) =
    some (text "GRP_SEND_SET" ∷ text element_id ∷ number grp_bus ∷ [])
coalesce_key (aux_master_set aux_bus) = some (text "AUX_MASTER_SET" ∷ number aux_bus ∷ [])
coalesce_key (grp_master_set grp_bus) = some (text "GRP_MASTER_SET" ∷ number grp_bus ∷ [])
coalesce_key monitor_set = some (text "MONITOR_SET" ∷ [])
coalesce_key (source_offset_set mixer_input) =
    some (text "SOURCE_OFFSET_SET" ∷ text mixer_input ∷ [])
coalesce_key (source_audio_offset_set mixer_input) =
    some (text "SOURCE_AUDIO_OFFSET_SET" ∷ text mixer_input ∷ [])
coalesce_key (command kind) = none

-- No setter is among the expensive types.
unfoldable pub is_expensive : InboundMessage → Bool
unfolding has
is_expensive (command kind) = has expensive_message_types kind
is_expensive _ = false

-- `flush_timer` is the instant at which the timer fires.
pub record RateLimitState : Type 0 where
  pub general : List ℕ
  pub expensive : List ℕ
  pub dropped_count : ℕ
  pub error_sent_this_window : Bool
  pub pending_setters : List (Key × Frame)
  pub flush_timer : Option ℕ

abbrev pub create_rate_limit_state : RateLimitState
create_rate_limit_state = record {
  general = [];
  expensive = [];
  dropped_count = 0;
  error_sent_this_window = false;
  pending_setters = [];
  flush_timer = none;
}

-- `t > now - RATE_LIMIT_WINDOW_MS`.
abbrev pub recent : ℕ → ℕ → Bool
recent now t = ltb now (t + rate_limit_window_ms)

abbrev pub check_expensive : ℕ → RateLimitState → Bool × RateLimitState
check_expensive now s =
    let kept = keep (recent now) s.expensive in
    if leb rate_limit_expensive_max (length kept)
    then (false, record s { expensive = kept })
    else (true, record s { general = s.general ++ now ∷ []; expensive = kept ++ now ∷ [] })

abbrev pub check_pruned : Bool → ℕ → RateLimitState → Bool × RateLimitState
check_pruned costly now s =
    if leb rate_limit_general_max (length s.general)
    then (false, s)
    else if costly
    then check_expensive now s
    else (true, record s { general = s.general ++ now ∷ [] })

unfoldable pub check_rate_limit : RateLimitState → Bool → ℕ → Bool × RateLimitState
check_rate_limit s costly now =
    check_pruned costly now (record s { general = keep (recent now) s.general })

-- What a socket is sent before a message reaches its own handler: the ACK of phase `accepted`, the NACK
-- of the rate limit, its ERROR frame. What the handler sends is outside the model.
pub data Outcome : Type 0 where
  accepted nack : String → Outcome
  error : Outcome

-- `handled` is what went on to its handler, and `warned` the counts that were logged, oldest first.
pub record Connection : Type 0 where
  pub rate_limit : RateLimitState
  pub sent : List Outcome
  pub handled : List Frame
  pub warned : List ℕ

abbrev pub new_connection : Connection
new_connection = record {
  rate_limit = create_rate_limit_state;
  sent = [];
  handled = [];
  warned = [];
}

abbrev pub with_limit : RateLimitState → Connection → Connection
with_limit s c = record c { rate_limit = s }

abbrev pub reply : Outcome → Connection → Connection
reply r c = record c { sent = c.sent ++ r ∷ [] }

-- The first drop opens the window.
abbrev pub opened : Option ℕ → ℕ → RateLimitState → RateLimitState
opened (some due) now s = s
opened none now s = record s {
  dropped_count = 0;
  error_sent_this_window = false;
  pending_setters = [];
  flush_timer = some (now + rate_limit_window_ms);
}

abbrev pub retained : Option Key → Frame → RateLimitState → RateLimitState
retained none f s = s
retained (some key) f s = record s { pending_setters = insert key f s.pending_setters }

abbrev pub told_once : Connection → Connection
told_once c =
    if c.rate_limit.error_sent_this_window
    then c
    else reply error (with_limit (record c.rate_limit { error_sent_this_window = true }) c)

abbrev pub dropped : Option String → Frame → Connection → Connection
dropped (some id) f c = reply (nack id) c
dropped none f c = told_once (with_limit (retained (coalesce_key f.msg) f c.rate_limit) c)

abbrev pub counted : RateLimitState → RateLimitState
counted s = record s { dropped_count = s.dropped_count + 1 }

unfoldable pub handle_rate_limited_message : ℕ → Frame → Connection → Connection
unfolding coalesce_key
handle_rate_limited_message now f c =
    dropped f.cmd_id f (with_limit (counted (opened c.rate_limit.flush_timer now c.rate_limit)) c)

abbrev pub acknowledged : Option String → Connection → Connection
acknowledged none c = c
acknowledged (some id) c = reply (accepted id) c

abbrev pub handle_checked : Bool → ℕ → Frame → Connection → Connection
handle_checked true now f c = acknowledged f.cmd_id (record c { handled = c.handled ++ f ∷ [] })
handle_checked false now f c = handle_rate_limited_message now f c

-- `handleMessage` up to the command's own handler.
unfoldable pub handle_message : ℕ → Frame → Connection → Connection
unfolding check_rate_limit is_expensive handle_rate_limited_message
handle_message now f c =
    let (allowed, s) = check_rate_limit c.rate_limit (is_expensive f.msg) now in
    handle_checked allowed now f (with_limit s c)

unfoldable pub replay : ℕ → List (Key × Frame) → Connection → Connection
unfolding handle_message
replay now [] c = c
replay now ((key, f) ∷ rest) c = replay now rest (handle_message now f c)

abbrev pub closed : RateLimitState → RateLimitState
closed s = record s {
  dropped_count = 0;
  error_sent_this_window = false;
  pending_setters = [];
  flush_timer = none;
}

abbrev pub warn : ℕ → Connection → Connection
warn n c = if ltb 0 n then record c { warned = c.warned ++ n ∷ [] } else c

unfoldable pub drain_drop_window : ℕ → Connection → Connection
unfolding replay
drain_drop_window now c =
    let s = c.rate_limit in
    replay now s.pending_setters (warn s.dropped_count (with_limit (closed s) c))

-- A message arrives, or the clock reaches an instant at which a timer may fire.
pub data Moment : Type 0 where
  arrives : Frame → Moment
  ticks : Moment

abbrev pub fire : Option ℕ → ℕ → Connection → Connection
fire none now c = c
fire (some due) now c = if leb due now then drain_drop_window now c else c

unfoldable pub happen : ℕ → Moment → Connection → Connection
unfolding handle_message drain_drop_window
happen now (arrives f) c = handle_message now f c
happen now ticks c = fire c.rate_limit.flush_timer now c

unfoldable pub happen_all : List (ℕ × Moment) → Connection → Connection
unfolding happen
happen_all [] c = c
happen_all ((now, m) ∷ rest) c = happen_all rest (happen now m c)
