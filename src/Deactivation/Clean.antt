-- ===== src/Deactivation/Clean.antt =====
-- What a deactivated document still holds (src/routes/productions.ts).
use open_live.Prelude.{
  or_kept, ℕ, String, false, ◌||◌, Option, none, some, ◌≡◌, refl, ap, arith, string_eq,
}
use open_live.Production.{
  ProductionDoc, is_active, is_activating, stopped_status-live, no_flow, no_tally,
}
use open_live.Gpu.Settle.{GpuConfig, settle_on_stop}
use open_live.Watchdog.{idle_stopped_doc}
use open_live.Deactivation.{Stop, stop_of, deactivated_doc}

-- Nothing of a live session is left.
pub record Cleared (doc : ProductionDoc) : Type 0 where
  pub not_live : (is_active doc.status || is_activating doc.status) ≡ false
  pub flow : doc.strom_flow_id ≡ none
  pub fields : doc.flow ≡ no_flow
  pub intercom : doc.intercom_production_id ≡ none
  pub started : doc.activated_at ≡ none
  pub tally : doc.tally ≡ no_tally

pub deactivated-Cleared :
    (g : GpuConfig) (now : ℕ) (upload : Option String) (doc : ProductionDoc)
    → Cleared (deactivated_doc g now none upload doc)
unfolding deactivated_doc stop_of
deactivated-Cleared g now upload doc = record {
  not_live = stopped_status-live doc.status;
  flow = refl;
  fields = refl;
  intercom = refl;
  started = refl;
  tally = refl;
}

pub kept-Cleared :
    (g : GpuConfig) (now : ℕ) (stop : Stop) (upload : Option String) (doc : ProductionDoc)
    → (is_active stop.status || is_activating stop.status) ≡ false
    → Cleared (deactivated_doc g now (some stop) upload doc)
unfolding deactivated_doc stop_of
kept-Cleared g now stop upload doc h = record {
  not_live = h;
  flow = refl;
  fields = refl;
  intercom = refl;
  started = refl;
  tally = refl;
}

settle-stopped :
    (g : GpuConfig) (doc : ProductionDoc) (now : ℕ)
    → doc.activated_at ≡ none
    → settle_on_stop g doc now ≡ none
unfolding settle_on_stop
settle-stopped g doc now e = ground (arith, e)

-- A deactivation of a document that a deactivation has written, with the status and the reason that it
-- finds kept and no new upload, changes nothing: no GPU hours are settled twice.
pub deactivated-twice :
    (g : GpuConfig) (now later : ℕ) (upload : Option String) (doc : ProductionDoc)
    → let first = deactivated_doc g now none upload doc in
      deactivated_doc g later
        (some (record { status = first.status; ended_reason = first.ended_reason }))
        none
        first
      ≡ first
unfolding deactivated_doc stop_of settle_on_stop
deactivated-twice g now later upload doc =
    let first = deactivated_doc g now none upload doc in
    ap (λ hours. record first { gpu_hours = or_kept hours first.gpu_hours })
      (settle-stopped g first later refl)

-- An idle stop leaves the clip players of the flow in the document. A deactivation after it, with the
-- status and the reason that it finds kept and no new upload, clears what that left behind and keeps
-- its status, reason and GPU hours.
pub deactivated-after_idle :
    (g : GpuConfig) (now later : ℕ) (upload : Option String) (doc : ProductionDoc)
    → let idled = idle_stopped_doc g now upload doc in
      let w =
        deactivated_doc g later
          (some (record { status = idled.status; ended_reason = idled.ended_reason }))
          none
          idled in
      Cleared w
      × (w.status ≡ idled.status)
      × (w.ended_reason ≡ idled.ended_reason)
      × (w.gpu_hours ≡ idled.gpu_hours)
      × (idled.flow.clip_player_block_ids ≡ doc.flow.clip_player_block_ids)
unfolding deactivated_doc stop_of idle_stopped_doc settle_on_stop
deactivated-after_idle g now later upload doc =
    let idled = idle_stopped_doc g now upload doc in
    (
      kept-Cleared g later (record { status = idled.status; ended_reason = idled.ended_reason })
          none idled (stopped_status-live doc.status),
      refl,
      refl,
      ap (λ hours. or_kept hours idled.gpu_hours) (settle-stopped g idled later refl),
      refl,
    )
