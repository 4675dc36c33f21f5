-- ===== src/Watchdog.antt =====
-- src/services/idle-watchdog.ts: the idle timers, one poll of the watchdog and the deactivation of
-- an idle production. Times are milliseconds since 1970. The handlers of other requests do not run
-- during the awaits of one poll: a poll is one step of the model.
pub mod Tick
pub mod Frame
pub mod Poll
pub mod Ends
pub mod Spares
pub mod Stops
pub mod Deadline
pub mod Warnings
pub mod Retry
pub mod Tests
use open_live.Prelude.{
  or_kept, ℕ, zero, suc, ◌+◌, ◌-◌, ◌*◌, ◌/◌, min, max, String, Bool, true, false, not, ◌&&◌, ◌||◌,
  List, [], ◌∷◌, ◌++◌, Option, none, some, if◌then◌else◌, get_or, is_some, ltb, leb, nat_beq,
  string_eq, ◌==◌,
}
use open_live.Prelude.Dict.{lookup, insert, remove, has, add, delete}
use open_live.Prelude.Json.{Json, null, num, str, bool, arr, obj, nil, cons, Items, end, field}
use open_live.Tally.{Hub, broadcast, get_subscriber_count}
use open_live.Production.{
  ProductionDoc, ProductionStatus, active, inactive, activating, ended, is_active, is_activating,
  EndedReason, idle, stopped_status, no_flow, no_tally, output_snapshot_for_production,
  OutputStatusEntry, OutputStatus, healthy, degraded, down, unknown, FlowFields,
}
use open_live.Gpu.Settle.{GpuConfig, settle_on_stop}

pub record IdleConfig : Type 0 where
  pub idle_timeout_sec : ℕ
  pub idle_warning_lead_sec : ℕ

unfoldable pub get_idle_timeout_ms : IdleConfig → ℕ
get_idle_timeout_ms c = c.idle_timeout_sec * 1000

unfoldable pub get_idle_warning_lead_ms : IdleConfig → ℕ
get_idle_warning_lead_ms c = min c.idle_warning_lead_sec c.idle_timeout_sec * 1000

pub record Timers : Type 0 where
  pub idle_since : List (String × ℕ)
  pub idle_warned : List (String × Bool)
  pub active_production_ids : List String
  pub hub : Hub

unfoldable pub get_idle_since : String → Timers → Option ℕ
get_idle_since p t = lookup p t.idle_since

unfoldable pub get_idle_expires_at : IdleConfig → ℕ → ℕ
unfolding get_idle_timeout_ms
get_idle_expires_at c idle_since_ms = idle_since_ms + get_idle_timeout_ms c

abbrev pub warning_cleared : String → Json
warning_cleared p =
    obj (field "type" (str "IDLE_WARNING_CLEARED") (field "productionId" (str p) end))

-- `ts` is the broadcast's time stamp.
unfoldable pub reset_idle_timer : String → String → Timers → Timers
reset_idle_timer ts p t =
    let cleared = record t {
      idle_since = remove p t.idle_since;
      idle_warned = remove p t.idle_warned;
    } in
    if get_or (lookup p t.idle_warned) false
    then record cleared { hub = broadcast p ts (warning_cleared p) t.hub }
    else cleared

unfoldable pub notify_production_activated : String → Timers → Timers
notify_production_activated p t = record t { active_production_ids = add p t.active_production_ids }

unfoldable pub notify_production_deactivated : String → Timers → Timers
notify_production_deactivated p t = record t {
  active_production_ids = delete p t.active_production_ids;
  idle_since = remove p t.idle_since;
  idle_warned = remove p t.idle_warned;
}

unfoldable pub notify_subscriber_join : String → String → Timers → Timers
unfolding reset_idle_timer
notify_subscriber_join ts p t = reset_idle_timer ts p t

-- the loop of `seedActiveProductions` over the documents that the database returned
unfoldable pub seed_active_productions : ℕ → List String → Timers → Timers
seed_active_productions now [] t = t
seed_active_productions now (p ∷ docs) t =
    let known = record t { active_production_ids = add p t.active_production_ids } in
    seed_active_productions now docs (
      if nat_beq (get_subscriber_count p t.hub) 0
      then record known { idle_since = insert p now t.idle_since }
      else known)

abbrev pub idle_warning : String → ℕ → ℕ → Json
idle_warning p remaining_sec deadline_ms = obj (
    field "type" (str "IDLE_WARNING") (
      field "productionId" (str p)
        (field "remainingSec" (num remaining_sec) (field "deadlineMs" (num deadline_ms) end))))

-- What the body of the loop does for one production with no operators that is idle since `since`.
-- `idleMs < timeoutMs` is `now < since + timeoutMs`, and there the deadline is not yet past.
unfoldable pub warn_if_due : IdleConfig → ℕ → String → String → ℕ → Timers → Timers
warn_if_due c now ts p since t =
    let deadline_ms = since + get_idle_timeout_ms c in
    let remaining_ms = deadline_ms - now in
    if leb remaining_ms (get_idle_warning_lead_ms c) && not (get_or (lookup p t.idle_warned) false)
    then record t {
      idle_warned = insert p true t.idle_warned;
      hub = broadcast p ts (idle_warning p ((remaining_ms + 500) / 1000) deadline_ms) t.hub;
    }
    else t

-- The calls of one deactivation that reach other services, in order.
pub data Effect : Type 0 where
  abort_activation clear_pfl clear_audio clear_pip clear_fx : Effect
  stop_meter_relay stop_clip_relay : Option String → Effect
  stop_live_upload sweep_guests : Effect
  delete_flow : String → Effect

-- What those services answer. `upload` is `none` where the upload throws, and the teardown with
-- it; `flow_deleted` is false where `deactivateStromFlow` throws; `written` is false where
-- `updateProductionDoc` gives up; `settled_at` is the clock where `settleOnStop` reads it.
pub record Answers : Type 0 where
  pub db_connected : Bool
  pub upload : Option (Option String)
  pub flow_deleted : Bool
  pub written : Bool
  pub settled_at : ℕ

pub record World : Type 0 where
  pub timers : Timers
  pub docs : String → Option ProductionDoc
  pub activations : List String
  pub effects : List (String × Effect)

abbrev pub log_effect : String → Effect → World → World
log_effect p e w = record w { effects = w.effects ++ (p, e) ∷ [] }

abbrev pub cast : String → String → Json → World → World
cast ts p message w = record w {
  timers = record (w.timers) { hub = broadcast p ts message w.timers.hub };
}

-- `activationAbortControllers.get(id)?.abort()` and its removal
unfoldable pub cancel_activation : String → World → World
cancel_activation p w =
    if has w.activations p
    then log_effect p abort_activation (record w { activations = delete p w.activations })
    else w

abbrev pub pip_reset : Json
pip_reset = obj (
    field "type" (str "PIP_STATE")
      (field "pgmPip" null (field "pvwPip" null (field "pips" (arr nil) end))))

-- The live state of a production that both relays and the controller keep.
unfoldable pub clear_live_state : String → ProductionDoc → World → World
clear_live_state ts doc w =
    let p = doc.id in
    let w₁ = log_effect p clear_audio (log_effect p clear_pfl w) in
    let w₂ = cast ts p pip_reset (log_effect p clear_pip w₁) in
    let w₃ = log_effect p (stop_meter_relay doc.strom_flow_id) (log_effect p clear_fx w₂) in
    let w₄ = log_effect p (stop_clip_relay doc.strom_flow_id) w₃ in
    log_effect p stop_live_upload (cast ts p (obj (field "type" (str "GRP_STATE_RESET") end)) w₄)

-- The teardown of the flow, which never fails the deactivation, and the upload summary.
unfoldable pub tear_down_flow : Answers → ProductionDoc → World → World × Option String
tear_down_flow a doc w = elim doc.strom_flow_id [
  | none ↦ (w, none)
  | some flow_id ↦ elim a.upload [
    | none ↦ (w, none)
    | some summary ↦
        (if a.flow_deleted then log_effect doc.id (delete_flow flow_id) w else w, summary)
  ]
]

-- The patch of the idle deactivation, applied. It leaves four fields of the activation as they are.
unfoldable pub idle_stopped_doc : GpuConfig → ℕ → Option String → ProductionDoc → ProductionDoc
unfolding stopped_status settle_on_stop
idle_stopped_doc g now summary doc =
    let next_status = stopped_status doc.status in
    record doc {
      status = next_status;
      ended_reason = elim next_status [ ended ↦ some idle | _ ↦ none ];
      auto_deactivated = true;
      activated_at = none;
      gpu_hours = or_kept (settle_on_stop g doc now) doc.gpu_hours;
      last_recording_upload = or_kept summary doc.last_recording_upload;
      strom_flow_id = none;
      tally = no_tally;
      flow = record no_flow {
        clip_player_block_ids = doc.flow.clip_player_block_ids;
        mixer_input_map = doc.flow.mixer_input_map;
        return_buses = doc.flow.return_buses;
        return_whep_urls = doc.flow.return_whep_urls;
      };
    }

abbrev pub status_text : ProductionStatus → String
status_text active = "active"
status_text inactive = "inactive"
status_text activating = "activating"
status_text ended = "ended"

abbrev pub output_status_text : OutputStatus → String
output_status_text healthy = "healthy"
output_status_text degraded = "degraded"
output_status_text down = "down"
output_status_text unknown = "unknown"

unfoldable pub output_items : List OutputStatusEntry → Items
output_items [] = nil
output_items (o ∷ os) =
    cons
      (obj (
        field "id" (str o.output_id)
          (field "status" (str (output_status_text o.output_status)) end)))
      (output_items os)

-- `buildProductionStatusEvent` over `outputSnapshotForProduction`
unfoldable pub production_status_event :
    String → ProductionStatus → Option String → List String → Json
unfolding output_items
production_status_event p status strom_flow_id output_ids = obj (
    field "type" (str "PRODUCTION_STATUS") (
      field "productionId" (str p) (
        field "status" (str (status_text status)) (
          field "outputs"
            (arr
              (output_items (output_snapshot_for_production status strom_flow_id output_ids true)))
            end))))

abbrev pub not_recording : Json
not_recording = obj (
    field "type" (str "RECORDING_STATE")
      (field "program" (bool false) (field "inputs" (arr nil) end)))

unfoldable pub announce_stop : String → ProductionDoc → World → World
announce_stop ts stopped w =
    let p = stopped.id in
    cast ts p (production_status_event p stopped.status none stopped.output_ids) (
      cast ts p (obj (field "type" (str "PRODUCTION_DEACTIVATED") end)) (cast ts p not_recording w))

-- The update of the document and the announcements, where `updateProductionDoc` returns; it throws
-- where the first argument is false.
unfoldable pub finish_stop : Bool → String → String → ProductionDoc → World → World × Bool
unfolding announce_stop
finish_stop true ts p stopped w = (
  announce_stop ts stopped (record w { docs = λ q. if p == q then some stopped else w.docs q }),
  true,
)
finish_stop false ts p stopped w = (w, false)

-- The body for a production that is active or activating.
unfoldable pub stop_idle :
    GpuConfig → Answers → String → String → ProductionDoc → World → World × Bool
unfolding finish_stop
stop_idle g a ts p doc w =
    let (w', summary) = tear_down_flow a doc (clear_live_state ts doc (cancel_activation p w)) in
    finish_stop a.written ts p (idle_stopped_doc g a.settled_at summary doc)
      (log_effect p sweep_guests w')

-- The body after the read of the document, which throws where there is none.
unfoldable pub deactivate_found :
    GpuConfig → Answers → String → String → Option ProductionDoc → World → World × Bool
unfolding stop_idle
deactivate_found g a ts p none w = (w, false)
deactivate_found g a ts p (some doc) w =
    if not (is_active doc.status || is_activating doc.status)
    then (w, true)
    else stop_idle g a ts p doc w

-- The second part is false where the call throws.
unfoldable pub deactivate_production : GpuConfig → Answers → String → String → World → World × Bool
unfolding deactivate_found
deactivate_production g a ts p w =
    if not a.db_connected then (w, true) else deactivate_found g a ts p (w.docs p) w
