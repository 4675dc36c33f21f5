-- ===== src/Guests.antt =====
-- src/services/guest-health.ts and src/services/guest-sweep.ts: the health of the guest seats, and
-- the end of a production's invites and sessions.
pub mod Seats
use open_live.Prelude.{
  ℕ, String, Bool, true, false, not, List, [], ◌∷◌, Option, none, some, get_or, if◌then◌else◌, keep,
  map, ◌==◌, string_eq, ◌&&◌,
}
use open_live.Prelude.Dict.{lookup, insert}

-- A status of a newer Strom is another text.
pub data HealthStatus : Type 0 where
  ok failed : HealthStatus
  newer : String → HealthStatus

pub record BlockHealthReport : Type 0 where
  pub block_id : String
  pub status : HealthStatus
  pub detail : Option String
  pub causes : List String

pub record GuestHealthMessage : Type 0 where
  pub mixer_input : String
  pub block_id : String
  pub has_failed : Bool
  pub detail : Option String
  pub causes : List String

unfoldable pub message_for : HealthStatus → String → BlockHealthReport → Option GuestHealthMessage
message_for (newer text) input report = none
message_for ok input report = some (record {
  mixer_input = input;
  block_id = report.block_id;
  has_failed = false;
  detail = none;
  causes = [];
})
message_for failed input report = some (record {
  mixer_input = input;
  block_id = report.block_id;
  has_failed = true;
  detail = report.detail;
  causes = report.causes;
})

unfoldable pub guest_health_message :
    List (String × String) → BlockHealthReport → Option GuestHealthMessage
unfolding message_for
guest_health_message guest_blocks report = elim (lookup report.block_id guest_blocks) [
  | none ↦ none
  | some input ↦ message_for report.status input report
]

-- `byBlock`: a later report of the same block takes its place. Malformed entries are left out.
unfoldable pub by_block :
    List BlockHealthReport → List (String × BlockHealthReport) → List (String × BlockHealthReport)
by_block [] m = m
by_block (r ∷ reports) m = by_block reports (insert r.block_id r m)

abbrev pub healthy_report : String → BlockHealthReport
healthy_report id = record { block_id = id; status = ok; detail = none; causes = [] }

unfoldable pub snapshot_of :
    List (String × String)
    → List (String × BlockHealthReport)
    → List (String × String)
    → List GuestHealthMessage
unfolding guest_health_message
snapshot_of guest_blocks m [] = []
snapshot_of guest_blocks m ((id, input) ∷ rest) =
    let messages = snapshot_of guest_blocks m rest in
    elim (guest_health_message guest_blocks (get_or (lookup id m) (healthy_report id))) [
      | none ↦ messages
      | some message ↦ message ∷ messages
    ]

unfoldable pub guest_health_snapshot :
    List (String × String) → List BlockHealthReport → List GuestHealthMessage
unfolding snapshot_of by_block
guest_health_snapshot guest_blocks block_health =
    snapshot_of guest_blocks (by_block block_health []) guest_blocks

-- Invites and sessions as far as the sweep reads them. A write may fail for each document.
pub record Invite : Type 0 where
  pub id : String
  pub production_id : String
  pub has_rev : Bool

pub record Session : Type 0 where
  pub id : String
  pub production_id : String
  pub left : Bool

unfoldable pub sweep_invites : (String → Bool) → String → List Invite → List Invite
sweep_invites destroys p invites =
    keep (λ i. not (i.production_id == p && i.has_rev && destroys i.id)) invites

unfoldable pub leave : (String → Bool) → String → Session → Session
leave writes p s =
    if s.production_id == p && not s.left && writes s.id then record s { left = true } else s

unfoldable pub sweep_sessions : (String → Bool) → String → List Session → List Session
unfolding leave
sweep_sessions writes p sessions = map (leave writes p) sessions
