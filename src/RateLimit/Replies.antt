-- ===== src/RateLimit/Replies.antt =====
-- src/ws/controller.ts: every command with an id is accepted or dropped once, and told so.
use open_live.Prelude.{ℕ, String, List, ◌∷◌, ◌++◌, [], Option, none, some, ◌≡◌, All, string_eq}
use open_live.RateLimit.Keys.{Key, key_eq}
use open_live.RateLimit.{Frame, Outcome, Connection, Moment}
use open_live.RateLimit.Outcome.{accepted, nack, error}
use open_live.RateLimit.Moment.{arrives, ticks}

abbrev pub id_of : Option String → List String
id_of none = []
id_of (some id) = id ∷ []

-- The ids of the commands that arrived, and those that an ACK of phase `accepted` or a NACK of the rate
-- limit names.
abbrev pub ids : List (ℕ × Moment) → List String
ids [] = []
ids ((now, arrives f) ∷ rest) = id_of f.cmd_id ++ ids rest
ids ((now, ticks) ∷ rest) = ids rest

abbrev pub resolved : List Outcome → List String
resolved [] = []
resolved (accepted id ∷ rest) = id ∷ resolved rest
resolved (nack id ∷ rest) = id ∷ resolved rest
resolved (error ∷ rest) = resolved rest

-- What is retained is answered already.
abbrev IsAnonymous : List (Key × Frame) → Type 0
IsAnonymous l = All (λ e. e.1.cmd_id ≡ none) l

record IsAnswered (answered : List String) (c : Connection) : Type 0 where
  replies : resolved c.sent ≡ answered
  anonymous : IsAnonymous c.rate_limit.pending_setters
