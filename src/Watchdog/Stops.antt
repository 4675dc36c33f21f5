-- ===== src/Watchdog/Stops.antt =====
-- A poll of src/services/idle-watchdog.ts stops each production that is past its deadline.
use open_live.Prelude.{
  ℕ, ◌+◌, ◌≤◌, String, Bool, true, false, not, ◌||◌, Option, none, some, if◌then◌else◌, ltb, ◌==◌,
  string_eq, ◌≡◌, refl, ◌∙◌, arith, inl, inr, ==_refl, Option-cases, subst, sym, ap, get_or,
}
use open_live.Prelude.Dict.{lookup, has, lookup-remove, has-delete}
use open_live.Tally.{get_subscriber_count}
use open_live.Production.{
  ProductionDoc, ProductionStatus, EndedReason, active, activating, ended, inactive, idle,
  is_active, is_activating, stopped_status, stopped_status-live, no_tally,
}
use open_live.Gpu.Settle.{GpuConfig}
use open_live.Watchdog.{
  World, Answers, notify_production_deactivated, get_idle_timeout_ms, tear_down_flow,
  idle_stopped_doc, finish_stop, stop_idle, deactivate_found, deactivate_production,
}
use open_live.Watchdog.Tick.{Poll, with_timers, deactivate_idle, visit_idle, visit}
use open_live.Watchdog.Frame.{announce_stop-Quiet, deactivate-Framed}

-- What the teardown of the flow returns, whatever the world.
abbrev pub upload_summary : Answers → ProductionDoc → Option String
upload_summary a doc = elim doc.strom_flow_id [ none ↦ none | some _ ↦ get_or a.upload none ]

tear_down_flow-summary :
    (a : Answers) (doc : ProductionDoc) (w : World)
    → (tear_down_flow a doc w).1 ≡ upload_summary a doc
unfolding tear_down_flow
tear_down_flow-summary a doc w = elim (Option-cases doc.strom_flow_id) [
  | inl e ↦ rw (tear_down_flow, e) refl
  | inr (flow_id, e) ↦ elim (Option-cases a.upload) [
    | inl u ↦ rw (tear_down_flow, e, u) refl
    | inr (summary, u) ↦ rw (tear_down_flow, e, u) refl
  ]
]

chosen : (b : Bool) (r s : World × Bool) → b ≡ true → (if not b then r else s) ≡ s
chosen true r s e = refl
chosen false r s e = absurd (ground (arith, e))

pub skipped : (b : Bool) (r s : World × Bool) → b ≡ false → (if b then r else s) ≡ s
skipped false r s e = refl
skipped true r s e = absurd (ground (arith, e))

if-done :
    (P : World × Bool → Type 0) (b : Bool) (r s : World × Bool)
    → b ≡ true
    → P r
    → P (if b then r else s)
if-done P true r s e h = h
if-done P false r s e h = absurd (ground (arith, e))

-- What an idle stop makes of a document: a production on air has ended, one that was starting is
-- inactive, nothing runs, and what the stop is not about stays.
pub record IsStopped (before after : ProductionDoc) : Type 0 where
  pub ended_idle :
      before.status ≡ active → (after.status ≡ ended) × (after.ended_reason ≡ some idle)
  pub given_up :
      before.status ≡ activating → (after.status ≡ inactive) × (after.ended_reason ≡ none)
  pub not_live : (is_active after.status || is_activating after.status) ≡ false
  pub by_itself : after.auto_deactivated ≡ true
  pub not_started : after.activated_at ≡ none
  pub no_flow_id : after.strom_flow_id ≡ none
  pub no_mixer : after.flow.mixer_block_id ≡ none
  pub off_air : after.tally ≡ no_tally
  pub same_id : after.id ≡ before.id
  pub same_outputs : after.output_ids ≡ before.output_ids

idle_stopped_doc-IsStopped :
    (g : GpuConfig) (now : ℕ) (summary : Option String) (doc : ProductionDoc)
    → IsStopped doc (idle_stopped_doc g now summary doc)
unfolding idle_stopped_doc stopped_status
idle_stopped_doc-IsStopped g now summary doc =
    let reason : ProductionStatus → Option EndedReason =
      λ s. elim (stopped_status s) [ ended ↦ some idle | _ ↦ none ] in
    record {
      ended_idle = λ e. (ap stopped_status e, ap reason e);
      given_up = λ e. (ap stopped_status e, ap reason e);
      not_live = stopped_status-live doc.status;
      by_itself = refl;
      not_started = refl;
      no_flow_id = refl;
      no_mixer = refl;
      off_air = refl;
      same_id = refl;
      same_outputs = refl;
    }

module _ (poll : Poll) (p : String) (doc : ProductionDoc) where
  -- The document that the poll writes.
  abbrev pub stopped_doc : ProductionDoc
  stopped_doc =
      idle_stopped_doc poll.gpu_config (poll.answers p).settled_at
        (upload_summary (poll.answers p) doc) doc

  -- The answers that let the deactivation through, and what it does then.
  pub record Answered : Type 0 where
    pub connected : (poll.answers p).db_connected ≡ true
    pub written : (poll.answers p).written ≡ true
    pub live : (is_active doc.status || is_activating doc.status) ≡ true

  abbrev Stopped : World × Bool → Type 0
  Stopped r = (r.0.docs p ≡ some stopped_doc) × (r.1 ≡ true)

  finish_stop-doc :
      (b : Bool) (w : World) → b ≡ true → Stopped (finish_stop b poll.ts p stopped_doc w)
  unfolding finish_stop
  finish_stop-doc false w e = absurd (ground (arith, e))
  finish_stop-doc true w e =
      let stored = record w { docs = λ r. if p == r then some stopped_doc else w.docs r } in
      let told = announce_stop-Quiet poll.ts stopped_doc stored in
      let put : stored.docs p ≡ some stopped_doc = rw (==_refl p) refl in
      (ap (λ f. f p) told.docs ∙ put, refl)

  stop_idle-doc :
      (w : World)
      → (poll.answers p).written ≡ true
      → Stopped (stop_idle poll.gpu_config (poll.answers p) poll.ts p doc w)
  unfolding stop_idle
  stop_idle-doc w e =
      rw (tear_down_flow-summary (poll.answers p) doc _)
        (finish_stop-doc (poll.answers p).written _ e)

  -- The guards of a deactivation let a live production through.
  pub deactivate-live :
      (w : World)
      → (poll.answers p).db_connected ≡ true
      → (is_active doc.status || is_activating doc.status) ≡ true
      → w.docs p ≡ some doc
      → deactivate_production poll.gpu_config (poll.answers p) poll.ts p w
        ≡ stop_idle poll.gpu_config (poll.answers p) poll.ts p doc w
  unfolding deactivate_production deactivate_found
  deactivate-live w connected live e =
      let g = poll.gpu_config in
      chosen (poll.answers p).db_connected (w, true)
        (deactivate_found g (poll.answers p) poll.ts p (w.docs p) w) connected
      ∙ ap (λ o. deactivate_found g (poll.answers p) poll.ts p o w) e
      ∙ chosen (is_active doc.status || is_activating doc.status) (w, true)
          (stop_idle g (poll.answers p) poll.ts p doc w) live

  deactivate-doc :
      (w : World)
      → Answered
      → w.docs p ≡ some doc
      → Stopped (deactivate_production poll.gpu_config (poll.answers p) poll.ts p w)
  deactivate-doc w a e =
      subst Stopped (sym (deactivate-live w a.connected a.live e)) (stop_idle-doc w a.written)

  -- The production is past its deadline, with no operators.
  pub record Due (w : World) : Type 0 where
    pub unwatched : get_subscriber_count p w.timers.hub ≡ 0
    pub expired :
        (since : ℕ) × (lookup p w.timers.idle_since ≡ some since)
        × (since + get_idle_timeout_ms poll.idle_config ≤ poll.now)
    pub stored : w.docs p ≡ some doc

  -- The production is stopped, and the watchdog has forgotten it.
  pub record Gone (w : World) : Type 0 where
    pub doc_stopped : w.docs p ≡ some stopped_doc
    pub stopped : IsStopped doc stopped_doc
    pub not_listed : has w.timers.active_production_ids p ≡ false
    pub no_timer : lookup p w.timers.idle_since ≡ none

  deactivate_idle-Gone :
      (w : World)
      → Answered
      → w.docs p ≡ some doc
      → Gone (deactivate_idle poll p w).0 × ((deactivate_idle poll p w).1 ≡ false)
  unfolding deactivate_idle notify_production_deactivated
  deactivate_idle-Gone w a e =
      let left = with_timers w (notify_production_deactivated p w.timers) in
      let r = deactivate_production poll.gpu_config (poll.answers p) poll.ts p left in
      let (written, done) = deactivate-doc left a e in
      let (frame, since, ids) = deactivate-Framed poll.gpu_config (poll.answers p) poll.ts p left in
      let gone : Gone r.0 = record {
        doc_stopped = written;
        stopped = idle_stopped_doc-IsStopped poll.gpu_config _ _ doc;
        not_listed =
            ap (λ xs. has xs p) ids
            ∙ has-delete p p w.timers.active_production_ids
            ∙ ap (λ b. if b then false else has w.timers.active_production_ids p) (==_refl p);
        no_timer =
            ap (lookup p) since
            ∙ lookup-remove p p w.timers.idle_since
            ∙ ap (λ b. if b then none else lookup p w.timers.idle_since) (==_refl p);
      } in
      if-done (λ s. Gone s.0 × (s.1 ≡ false)) r.1 _ _ done (gone, refl)

  -- A visit of a production past its deadline deactivates it.
  pub visit-past : (w : World) → Due w → visit poll p w ≡ deactivate_idle poll p w
  unfolding visit visit_idle
  visit-past w due =
      let (since, e, past) = due.expired in
      skipped (ltb 0 (get_subscriber_count p w.timers.hub)) _
        (visit_idle poll p (lookup p w.timers.idle_since) w) (ground (arith, due.unwatched))
      ∙ ap (λ o. visit_idle poll p o w) e
      ∙ skipped (ltb poll.now (since + get_idle_timeout_ms poll.idle_config)) _
          (deactivate_idle poll p w) (ground (arith, past))

  pub visit-Gone :
      (w : World) → Answered → Due w → Gone (visit poll p w).0 × ((visit poll p w).1 ≡ false)
  visit-Gone w a due =
      subst (λ s. Gone s.0 × (s.1 ≡ false)) (sym (visit-past w due))
        (deactivate_idle-Gone w a due.stored)
