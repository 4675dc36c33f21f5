-- ===== src/Production/Samples.antt =====
-- A production document for the tests.
use open_live.Prelude.{[], ◌∷◌, some, none, false}
use open_live.Production.{ProductionDoc, active, no_flow, no_tally}

-- Activated 10 minutes into the third hour, on the flow "f".
abbrev pub live_doc : ProductionDoc
live_doc = record {
  id = "p";
  status = active;
  ended_reason = none;
  auto_deactivated = false;
  activated_at = some 7_800_000;
  gpu_hours = some ((3_600_000, 60) ∷ []);
  last_recording_upload = none;
  strom_flow_id = some "f";
  intercom_production_id = none;
  intercom_manager_origin = none;
  output_ids = "o" ∷ [];
  tally = no_tally;
  flow = record no_flow { clip_player_block_ids = some "clips"; recording = some "isos" };
}
