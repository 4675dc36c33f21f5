-- ===== src/Registries.antt =====
-- Small rules and registries: src/services/pfl-state.ts, src/services/whip-ingest-state.ts,
-- src/lib/gateway-health.ts and src/services/production-gate.ts.
use open_live.Prelude.{
  ℕ, ◌+◌, ◌-◌, ◌*◌, String, Bool, true, false, not, ◌||◌, List, [], Option, none, some, get_or,
  if◌then◌else◌, ltb, leb, length, string_eq,
}
use open_live.Prelude.Dict.{lookup, insert, remove}

-- The three maps of the solo state, by production.
pub record Solo : Type 0 where
  pub active_pfl : List (String × List String)
  pub active_afl : List (String × List String)
  pub num_audio_channels : List (String × ℕ)

unfoldable pub any_solo_active : String → Solo → Bool
any_solo_active p s =
    ltb 0 (length (get_or (lookup p s.active_pfl) []))
    || ltb 0 (length (get_or (lookup p s.active_afl) []))

unfoldable pub clear_production_pfl_state : String → Solo → Solo
clear_production_pfl_state p s = record {
  active_pfl = remove p s.active_pfl;
  active_afl = remove p s.active_afl;
  num_audio_channels = remove p s.num_audio_channels;
}

pub data WhipIngestState : Type 0 where
  connected disconnected : WhipIngestState

pub record WhipIngestSnapshot : Type 0 where
  pub state : WhipIngestState
  pub changed_at : ℕ

abbrev same_state : WhipIngestState → WhipIngestState → Bool
same_state connected connected = true
same_state disconnected disconnected = true
same_state _ _ = false

abbrev is_change : Option WhipIngestSnapshot → WhipIngestState → Bool
is_change none state = true
is_change (some prev) state = not (same_state prev.state state)

-- The registry after the call, and whether the state changed.
unfoldable pub set_whip_ingest_state :
    ℕ
    → String
    → WhipIngestState
    → List (String × WhipIngestSnapshot)
    → List (String × WhipIngestSnapshot) × Bool
set_whip_ingest_state now source_id state by_source = (
  insert source_id (record { state = state; changed_at = now }) by_source,
  is_change (lookup source_id by_source) state,
)

unfoldable pub get_whip_ingest_state :
    String → List (String × WhipIngestSnapshot) → Option WhipIngestSnapshot
get_whip_ingest_state source_id by_source = lookup source_id by_source

unfoldable pub clear_whip_ingest_state :
    Option String → List (String × WhipIngestSnapshot) → List (String × WhipIngestSnapshot)
clear_whip_ingest_state none by_source = []
clear_whip_ingest_state (some source_id) by_source = remove source_id by_source

pub data GatewayHealth : Type 0 where
  healthy down unknown : GatewayHealth

-- `last_seen_at` is the instant that the stored text names, or `none` where it names none. An age
-- below 0, of a clock that runs ahead, is within the threshold, as it is there.
unfoldable pub derive_gateway_health : ℕ → Option ℕ → ℕ → GatewayHealth
derive_gateway_health down_after_seconds none now = unknown
derive_gateway_health down_after_seconds (some seen) now =
    if leb (now - seen) (down_after_seconds * 1000) then healthy else down

-- The counters of the start gate.
pub record Gate : Type 0 where
  pub lookup_errors : ℕ
  pub refusals : ℕ

-- The remaining balance where the lookup gives one: `zero_or_less` stands for a number that is not
-- above 0.
pub data Balance : Type 0 where
  positive zero_or_less : Balance
  unread : Balance

-- The decision and the counters after it.
unfoldable pub check_production_start_allowed : Bool → Bool → Balance → Gate → Bool × Gate
check_production_start_allowed false has_pat balance g = (true, g)
check_production_start_allowed true false balance g =
    (true, record g { lookup_errors = g.lookup_errors + 1 })
check_production_start_allowed true true unread g =
    (true, record g { lookup_errors = g.lookup_errors + 1 })
check_production_start_allowed true true zero_or_less g =
    (false, record g { refusals = g.refusals + 1 })
check_production_start_allowed true true positive g = (true, g)
