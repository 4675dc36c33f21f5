-- ===== src/Reconcile.antt =====
-- src/services/reconcile.ts: the startup comparison of the stored productions with Strom's flows.
pub mod Runs
pub mod Agrees
pub mod Tests
use open_live.Prelude.{
  ℕ, String, Bool, true, false, not, ◌&&◌, ◌||◌, List, [], ◌∷◌, ◌++◌, Option, none, some, is_some,
  get_or, if◌then◌else◌, ◌==◌, string_eq, map,
}
use open_live.Prelude.Dict.{lookup, insert, has}
use open_live.Production.{
  ProductionDoc, ProductionStatus, active, inactive, activating, ended, is_active, is_activating,
  EndedReason, flow_lost, stopped_status,
}
use open_live.Deactivation.{same_text}

-- A flow of Strom with the production that its description names, if it has the form `prod:ID`.
pub record Flow : Type 0 where
  pub id : String
  pub prod_id : Option String

-- `flowByProdId`: a later flow of the same production takes its place.
unfoldable pub add_tagged : Option String → String → List (String × String) → List (String × String)
add_tagged none id by_prod = by_prod
add_tagged (some p) id by_prod = insert p id by_prod

unfoldable pub flow_by_prod_id : List Flow → List (String × String) → List (String × String)
unfolding add_tagged
flow_by_prod_id [] by_prod = by_prod
flow_by_prod_id (f ∷ flows) by_prod = flow_by_prod_id flows (add_tagged f.prod_id f.id by_prod)

abbrev pub flow_ids : List Flow → List String
flow_ids flows = map (λ f. f.id) flows

unfoldable pub stored_flow : List String → Option String → Option String → Option String
stored_flow ids none tagged = tagged
stored_flow ids (some f) tagged = if has ids f then some f else tagged

unfoldable pub live_flow_id : List Flow → ProductionDoc → Option String
unfolding stored_flow flow_by_prod_id
live_flow_id flows doc =
    stored_flow (flow_ids flows) doc.strom_flow_id (lookup doc.id (flow_by_prod_id flows []))

unfoldable pub restored_doc : ℕ → String → ProductionDoc → ProductionDoc
restored_doc now flow_id doc = record doc {
  strom_flow_id = some flow_id;
  status = active;
  activated_at = some (get_or doc.activated_at now);
}

abbrev lost_reason : ProductionStatus → Option EndedReason → Option EndedReason
lost_reason ended kept = some flow_lost
lost_reason _ kept = kept

unfoldable pub reset_doc : ProductionDoc → ProductionDoc
unfolding stopped_status
reset_doc doc =
    let next_status = stopped_status doc.status in
    record doc {
      status = next_status;
      ended_reason = lost_reason next_status doc.ended_reason;
      activated_at = none;
      strom_flow_id = none;
      flow = record (doc.flow) {
        recorder_block_id = none;
        recorder_type = none;
        recording = none;
        input_recordings = none;
      };
    }

-- One production: the document to write, if any. A sweep of its guests goes with a reset.
unfoldable pub reconcile_live : Option String → ℕ → ProductionDoc → Option ProductionDoc
unfolding restored_doc reset_doc
reconcile_live (some f) now doc =
    if not (is_active doc.status) || not (same_text doc.strom_flow_id (some f))
    then some (restored_doc now f doc)
    else none
reconcile_live none now doc =
    if is_active doc.status || is_activating doc.status then some (reset_doc doc) else none

unfoldable pub reconcile_doc : List Flow → ℕ → ProductionDoc → Option ProductionDoc
unfolding reconcile_live live_flow_id
reconcile_doc flows now doc = reconcile_live (live_flow_id flows doc) now doc

-- The loop; `writes` says whose insert succeeds.
unfoldable pub reconcile_all :
    List Flow → ℕ → (String → Bool) → List ProductionDoc → List ProductionDoc
unfolding reconcile_doc
reconcile_all flows now writes docs =
    map (λ d. if writes d.id then get_or (reconcile_doc flows now d) d else d) docs
