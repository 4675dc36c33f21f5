-- ===== src/Production.antt =====
-- The production document (src/db/types.ts) as the modelled services read and write it, and the
-- status rules of src/lib/production-health.ts.
pub mod Samples
use open_live.Prelude.{
  ℕ, String, Bool, true, false, not, ◌&&◌, ◌||◌, ◌≡◌, refl, List, [], ◌∷◌, map, Option, none, some,
  if◌then◌else◌, is_some, get_or,
}
use open_live.Tally.{Tally}

pub data ProductionStatus : Type 0 where
  active inactive activating ended : ProductionStatus

pub data EndedReason : Type 0 where
  deactivated idle flow_lost : EndedReason

-- The fields that an activation sets and a stop clears; `none` is `undefined`, and a value is a
-- mark of what is stored.
pub record FlowFields : Type 0 where
  pub mixer_block_id : Option String
  pub audio_mixer_block_id : Option String
  pub loudness_main_block_id : Option String
  pub recorder_block_id : Option String
  pub recorder_type : Option String
  pub recording : Option String
  pub source_offset_block_ids : Option String
  pub source_audio_offset_block_ids : Option String
  pub clip_player_block_ids : Option String
  pub mixer_input_map : Option String
  pub return_buses : Option String
  pub return_whep_urls : Option String
  pub whep_endpoint : Option String
  pub pgm_whep_endpoint : Option String
  pub whip_endpoints : Option String
  pub srt_output_uri : Option String
  pub whep_output_urls : Option String
  pub input_recordings : Option String

-- `activated_at` is the instant that the stored ISO string names. `gpu_hours` maps the start of an
-- hour to its seconds.
pub record ProductionDoc : Type 0 where
  pub id : String
  pub status : ProductionStatus
  pub ended_reason : Option EndedReason
  pub auto_deactivated : Bool
  pub activated_at : Option ℕ
  pub gpu_hours : Option (List (ℕ × ℕ))
  pub last_recording_upload : Option String
  pub strom_flow_id : Option String
  pub intercom_production_id : Option String
  pub intercom_manager_origin : Option String
  pub output_ids : List String
  pub tally : Tally
  pub flow : FlowFields

abbrev pub is_active : ProductionStatus → Bool
is_active active = true
is_active _ = false

abbrev pub is_activating : ProductionStatus → Bool
is_activating activating = true
is_activating _ = false

unfoldable pub stopped_status : ProductionStatus → ProductionStatus
stopped_status active = ended
stopped_status _ = inactive

pub stopped_status-live :
    (s : ProductionStatus)
    → (is_active (stopped_status s) || is_activating (stopped_status s)) ≡ false
unfolding stopped_status
stopped_status-live active = refl
stopped_status-live inactive = refl
stopped_status-live activating = refl
stopped_status-live ended = refl

pub data OutputStatus : Type 0 where
  healthy degraded down unknown : OutputStatus

unfoldable pub derive_output_status : Bool → Bool → Bool → OutputStatus
derive_output_status strom_known production_active flow_running =
    if not strom_known then unknown else if production_active && flow_running then healthy else down

pub record OutputStatusEntry : Type 0 where
  pub output_id : String
  pub output_status : OutputStatus

unfoldable pub derive_output_snapshot : List String → Bool → Bool → Bool → List OutputStatusEntry
unfolding derive_output_status
derive_output_snapshot output_ids strom_known production_active flow_running =
    let status = derive_output_status strom_known production_active flow_running in
    map (λ id. record { output_id = id; output_status = status }) output_ids

-- `outputSnapshotForProduction` of src/routes/productions.ts
unfoldable pub output_snapshot_for_production :
    ProductionStatus → Option String → List String → Bool → List OutputStatusEntry
unfolding derive_output_snapshot
output_snapshot_for_production status strom_flow_id output_ids strom_known =
    derive_output_snapshot output_ids strom_known (is_active status)
      (is_active status && is_some strom_flow_id)

-- All fields of an activation cleared.
abbrev pub no_flow : FlowFields
no_flow = record {
  mixer_block_id = none;
  audio_mixer_block_id = none;
  loudness_main_block_id = none;
  recorder_block_id = none;
  recorder_type = none;
  recording = none;
  source_offset_block_ids = none;
  source_audio_offset_block_ids = none;
  clip_player_block_ids = none;
  mixer_input_map = none;
  return_buses = none;
  return_whep_urls = none;
  whep_endpoint = none;
  pgm_whep_endpoint = none;
  whip_endpoints = none;
  srt_output_uri = none;
  whep_output_urls = none;
  input_recordings = none;
}

abbrev pub no_tally : Tally
no_tally = record { pgm = none; pvw = none }
