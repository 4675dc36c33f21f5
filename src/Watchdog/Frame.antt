-- ===== src/Watchdog/Frame.antt =====
-- What one visit of the watchdog (src/services/idle-watchdog.ts) leaves alone: who subscribes, and
-- the timer and the document of every other production.
use open_live.Prelude.{
  ℕ, ◌+◌, String, Bool, true, false, not, ◌||◌, Option, none, some, if◌then◌else◌, ltb, get_or,
  ◌==◌, string_eq, ◌≡◌, refl, ◌∙◌, Bool-cases, Option-cases, if-holds, inl, inr,
}
use open_live.Prelude.Dict.{lookup, has, lookup-insert, lookup-remove, has-add, has-delete}
use open_live.Prelude.Json.{Json, obj, field, str, end}
use open_live.Tally.{get_subscriber_count}
use open_live.Tally.Snapshot.{broadcast-maps}
use open_live.Production.{ProductionDoc, is_active, is_activating}
use open_live.Gpu.Settle.{GpuConfig}
use open_live.Watchdog.{
  reset_idle_timer, notify_production_activated, notify_production_deactivated, warn_if_due,
  Answers, World, cast, cancel_activation, clear_live_state, tear_down_flow, announce_stop,
  finish_stop, stop_idle, deactivate_found, deactivate_production, get_idle_timeout_ms, pip_reset,
  warning_cleared,
}
use open_live.Watchdog.Tick.{Poll, with_timers, deactivate_idle, visit_idle, visit}

pub record Frame (p : String) (w w' : World) : Type 0 where
  pub subs : w'.timers.hub.subscribers ≡ w.timers.hub.subscribers
  pub watch : w'.timers.hub.watch_only_sockets ≡ w.timers.hub.watch_only_sockets
  pub since :
      (q : String) → (p == q) ≡ false → lookup q w'.timers.idle_since ≡ lookup q w.timers.idle_since
  pub docs : (q : String) → (p == q) ≡ false → w'.docs q ≡ w.docs q
  pub ids :
      (q : String)
      → (p == q) ≡ false
      → has w'.timers.active_production_ids q ≡ has w.timers.active_production_ids q

Frame-trans : {p : String} {u v w : World} → Frame p u v → Frame p v w → Frame p u w
Frame-trans f g = record {
  subs = g.subs ∙ f.subs;
  watch = g.watch ∙ f.watch;
  since = λ q ne. g.since q ne ∙ f.since q ne;
  docs = λ q ne. g.docs q ne ∙ f.docs q ne;
  ids = λ q ne. g.ids q ne ∙ f.ids q ne;
}

-- No timer and no document changes.
pub record Quiet (w w' : World) : Type 0 where
  pub subs : w'.timers.hub.subscribers ≡ w.timers.hub.subscribers
  pub watch : w'.timers.hub.watch_only_sockets ≡ w.timers.hub.watch_only_sockets
  pub since : w'.timers.idle_since ≡ w.timers.idle_since
  pub docs : w'.docs ≡ w.docs
  pub ids : w'.timers.active_production_ids ≡ w.timers.active_production_ids

Quiet-refl : (w : World) → Quiet w w
Quiet-refl w = record { subs = refl; watch = refl; since = refl; docs = refl; ids = refl }

Quiet-trans : {u v w : World} → Quiet u v → Quiet v w → Quiet u w
Quiet-trans f g = record {
  subs = g.subs ∙ f.subs;
  watch = g.watch ∙ f.watch;
  since = g.since ∙ f.since;
  docs = g.docs ∙ f.docs;
  ids = g.ids ∙ f.ids;
}

cast-Quiet : (ts p : String) (message : Json) (w : World) → Quiet w (cast ts p message w)
cast-Quiet ts p message w =
    let (subs, seqs, watch) = broadcast-maps p ts message w.timers.hub in
    record { subs = subs; watch = watch; since = refl; docs = refl; ids = refl }

cancel_activation-Quiet : (p : String) (w : World) → Quiet w (cancel_activation p w)
unfolding cancel_activation
cancel_activation-Quiet p w = elim (Bool-cases (has w.activations p)) [
  | inl e ↦
      rw (cancel_activation, e)
        (record { subs = refl; watch = refl; since = refl; docs = refl; ids = refl })
  | inr e ↦ rw (cancel_activation, e) (Quiet-refl w)
]

clear_live_state-Quiet :
    (ts : String) (doc : ProductionDoc) (w : World) → Quiet w (clear_live_state ts doc w)
unfolding clear_live_state
clear_live_state-Quiet ts doc w =
    let first = cast-Quiet ts doc.id pip_reset w in
    let q = Quiet-trans first (
      cast-Quiet ts doc.id (obj (field "type" (str "GRP_STATE_RESET") end))
        (cast ts doc.id pip_reset w)) in
    record { subs = q.subs; watch = q.watch; since = q.since; docs = q.docs; ids = q.ids }

tear_down_flow-Quiet :
    (a : Answers) (doc : ProductionDoc) (w : World) → Quiet w (tear_down_flow a doc w).0
unfolding tear_down_flow
tear_down_flow-Quiet a doc w = elim (Option-cases doc.strom_flow_id) [
  | inl e ↦ rw (tear_down_flow, e) (Quiet-refl w)
  | inr (flow_id, e) ↦ elim (Option-cases a.upload) [
    | inl u ↦ rw (tear_down_flow, e, u) (Quiet-refl w)
    | inr (summary, u) ↦ elim (Bool-cases a.flow_deleted) [
      | inl d ↦
          rw (tear_down_flow, e, u, d)
            (record { subs = refl; watch = refl; since = refl; docs = refl; ids = refl })
      | inr d ↦ rw (tear_down_flow, e, u, d) (Quiet-refl w)
    ]
  ]
]

pub announce_stop-Quiet :
    (ts : String) (doc : ProductionDoc) (w : World) → Quiet w (announce_stop ts doc w)
unfolding announce_stop
announce_stop-Quiet ts doc w =
    Quiet-trans (cast-Quiet ts doc.id _ w)
      (Quiet-trans (cast-Quiet ts doc.id _ _) (cast-Quiet ts doc.id _ _))

Quiet-Frame : {p : String} {w w' : World} → Quiet w w' → Frame p w w'
Quiet-Frame q = record {
  subs = q.subs;
  watch = q.watch;
  since = λ r ne. rw q.since;
  docs = λ r ne. rw q.docs;
  ids = λ r ne. rw q.ids;
}

-- The facts about a deactivation that later steps use.
abbrev pub Framed : String → World → World × Bool → Type 0
Framed p w r =
    Frame p w r.0
    × (r.0.timers.idle_since ≡ w.timers.idle_since)
    × (r.0.timers.active_production_ids ≡ w.timers.active_production_ids)

same-Framed : (p : String) (b : Bool) {w w' : World} → Quiet w w' → Framed p w (w', b)
same-Framed p b q = (Quiet-Frame q, q.since, q.ids)

if-Framed :
    (p : String) (w : World) (b : Bool) (r s : World × Bool)
    → Framed p w r
    → Framed p w s
    → Framed p w (if not b then r else s)
if-Framed p w true r s f g = g
if-Framed p w false r s f g = f

finish_stop-Framed :
    (written : Bool) (ts p : String) (stopped : ProductionDoc) {u w : World}
    → Quiet u w
    → Framed p u (finish_stop written ts p stopped w)
unfolding finish_stop
finish_stop-Framed false ts p stopped q = same-Framed p false q
finish_stop-Framed true ts p stopped {u} {w} q =
    let stored = record w { docs = λ r. if p == r then some stopped else w.docs r } in
    let told = announce_stop-Quiet ts stopped stored in
    (
      record {
        subs = told.subs ∙ q.subs;
        watch = told.watch ∙ q.watch;
        since = λ r ne. rw (told.since, q.since);
        docs = λ r ne. rw (finish_stop, ne, q.docs);
        ids = λ r ne. rw (told.ids, q.ids);
      },
      told.since ∙ q.since,
      told.ids ∙ q.ids,
    )

module _ (g : GpuConfig) (a : Answers) (ts p : String) where
  stop_idle-Framed : (doc : ProductionDoc) (w : World) → Framed p w (stop_idle g a ts p doc w)
  unfolding stop_idle
  stop_idle-Framed doc w =
      let w₁ = cancel_activation p w in
      let w₂ = clear_live_state ts doc w₁ in
      let q =
        Quiet-trans (cancel_activation-Quiet p w)
          (Quiet-trans (clear_live_state-Quiet ts doc w₁) (tear_down_flow-Quiet a doc w₂)) in
      finish_stop-Framed a.written ts p _
        (record { subs = q.subs; watch = q.watch; since = q.since; docs = q.docs; ids = q.ids })

  deactivate_found-Framed :
      (o : Option ProductionDoc) (w : World) → Framed p w (deactivate_found g a ts p o w)
  unfolding deactivate_found
  deactivate_found-Framed none w = same-Framed p false (Quiet-refl w)
  deactivate_found-Framed (some doc) w =
      if-Framed p w (is_active doc.status || is_activating doc.status) _ _
        (same-Framed p true (Quiet-refl w)) (stop_idle-Framed doc w)

  -- A deactivation leaves the timers alone, and the documents of other productions.
  pub deactivate-Framed : (w : World) → Framed p w (deactivate_production g a ts p w)
  unfolding deactivate_production
  deactivate-Framed w =
      if-Framed p w a.db_connected _ _ (same-Framed p true (Quiet-refl w))
        (deactivate_found-Framed (w.docs p) w)

module _ (poll : Poll) (p : String) where
  deactivate_idle-Frame : (w : World) → Frame p w (deactivate_idle poll p w).0
  unfolding deactivate_idle notify_production_deactivated notify_production_activated
  deactivate_idle-Frame w =
      let left = with_timers w (notify_production_deactivated p w.timers) in
      let left-Frame : Frame p w left = record {
        subs = refl;
        watch = refl;
        since = λ q ne. rw (lookup-remove p q w.timers.idle_since, ne);
        docs = λ q ne. refl;
        ids = λ q ne. rw (has-delete p q w.timers.active_production_ids, ne);
      } in
      let stopped = (deactivate-Framed poll.gpu_config (poll.answers p) poll.ts p left).0 in
      let f = Frame-trans left-Frame stopped in
      if-holds {A = World × Bool} (λ r. Frame p w r.0)
        (deactivate_production poll.gpu_config (poll.answers p) poll.ts p left).1 f
        (record {
          subs = f.subs;
          watch = f.watch;
          since = f.since;
          docs = f.docs;
          ids = λ q ne. rw (has-add p q _, ne) (f.ids q ne);
        })

  warn_if_due-Frame :
      (w : World) (since : ℕ)
      → Frame p w (with_timers w (warn_if_due poll.idle_config poll.now poll.ts p since w.timers))
  unfolding warn_if_due
  warn_if_due-Frame w since =
      let (subs, seqs, watch) = broadcast-maps p poll.ts _ w.timers.hub in
      if-holds (λ t. Frame p w (with_timers w t)) _
        (record {
          subs = subs;
          watch = watch;
          since = λ q ne. refl;
          docs = λ q ne. refl;
          ids = λ q ne. refl;
        })
        (Quiet-Frame (Quiet-refl w))

  reset_idle_timer-Frame :
      (w : World) → Frame p w (with_timers w (reset_idle_timer poll.ts p w.timers))
  unfolding reset_idle_timer
  reset_idle_timer-Frame w =
      let (subs, seqs, watch) = broadcast-maps p poll.ts (warning_cleared p) w.timers.hub in
      if-holds (λ t. Frame p w (with_timers w t)) (get_or (lookup p w.timers.idle_warned) false)
        (record {
          subs = subs;
          watch = watch;
          since = λ q ne. rw (lookup-remove p q w.timers.idle_since, ne);
          docs = λ q ne. refl;
          ids = λ q ne. refl;
        })
        (record {
          subs = refl;
          watch = refl;
          since = λ q ne. rw (lookup-remove p q w.timers.idle_since, ne);
          docs = λ q ne. refl;
          ids = λ q ne. refl;
        })

  visit_idle-Frame : (since : Option ℕ) (w : World) → Frame p w (visit_idle poll p since w).0
  unfolding visit_idle
  visit_idle-Frame none w = record {
    subs = refl;
    watch = refl;
    since = λ q ne. rw (lookup-insert p q poll.now w.timers.idle_since, ne);
    docs = λ q ne. refl;
    ids = λ q ne. refl;
  }
  visit_idle-Frame (some since) w =
      if-holds {A = World × Bool} (λ r. Frame p w r.0)
        (ltb poll.now (since + get_idle_timeout_ms poll.idle_config)) (warn_if_due-Frame w since)
        (deactivate_idle-Frame w)

  -- A visit leaves alone who subscribes, and the idle timer and the document of any other production.
  pub visit-Frame : (w : World) → Frame p w (visit poll p w).0
  unfolding visit
  visit-Frame w =
      if-holds {A = World × Bool} (λ r. Frame p w r.0) (ltb 0 (get_subscriber_count p w.timers.hub))
        (reset_idle_timer-Frame w) (visit_idle-Frame (lookup p w.timers.idle_since) w)
