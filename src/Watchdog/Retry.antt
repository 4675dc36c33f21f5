-- ===== src/Watchdog/Retry.antt =====
-- A failed deactivation of src/services/idle-watchdog.ts: the production starts a whole new idle
-- period.
use open_live.Prelude.{
  String, Bool, true, false, ◌||◌, none, some, if◌then◌else◌, ltb, string_eq, ==_refl, ◌≡◌, refl,
  ◌∙◌, arith, ap, subst, sym,
}
use open_live.Prelude.Dict.{lookup, has, lookup-inserted, lookup-removed, has-add}
use open_live.Tally.{get_subscriber_count}
use open_live.Production.{ProductionDoc, is_active, is_activating}
use open_live.Watchdog.{
  World, finish_stop, stop_idle, deactivate_production, notify_production_activated,
  notify_production_deactivated,
}
use open_live.Watchdog.Tick.{Poll, with_timers, deactivate_idle, visit_idle, visit}
use open_live.Watchdog.Frame.{deactivate-Framed}
use open_live.Watchdog.Spares.{count-same}
use open_live.Watchdog.Stops.{Due, visit-past, deactivate-live, skipped}

-- A deactivation that is not written throws.
finish_stop-throws :
    (b : Bool) (ts p : String) (doc : ProductionDoc) (w : World)
    → b ≡ false
    → (finish_stop b ts p doc w).1 ≡ false
unfolding finish_stop
finish_stop-throws false ts p doc w e = refl
finish_stop-throws true ts p doc w e = absurd (ground (arith, e))

again :
    (P : World × Bool → Type 0) (b : Bool) (r s : World × Bool)
    → b ≡ false
    → P s
    → P (if b then r else s)
again P false r s e h = h
again P true r s e h = absurd (ground (arith, e))

module _ (poll : Poll) (p : String) (doc : ProductionDoc) where
  -- The production is still listed and unwatched, and its timer does not run.
  record Restarted (w : World) : Type 0 where
    listed : has w.timers.active_production_ids p ≡ true
    unwatched : get_subscriber_count p w.timers.hub ≡ 0
    untimed : lookup p w.timers.idle_since ≡ none

  deactivate-throws :
      (w : World)
      → (poll.answers p).db_connected ≡ true
      → (is_active doc.status || is_activating doc.status) ≡ true
      → (poll.answers p).written ≡ false
      → w.docs p ≡ some doc
      → (deactivate_production poll.gpu_config (poll.answers p) poll.ts p w).1 ≡ false
  unfolding stop_idle
  deactivate-throws w connected live unwritten e =
      ap (λ r. r.1) (deactivate-live poll p doc w connected live e)
      ∙ finish_stop-throws (poll.answers p).written poll.ts p _ _ unwritten

  visit-Restarted :
      (w : World)
      → (poll.answers p).db_connected ≡ true
      → (is_active doc.status || is_activating doc.status) ≡ true
      → (poll.answers p).written ≡ false
      → Due poll p doc w
      → Restarted (visit poll p w).0 × ((visit poll p w).1 ≡ true)
  unfolding deactivate_idle notify_production_deactivated notify_production_activated
  visit-Restarted w connected live unwritten due =
      let left = with_timers w (notify_production_deactivated p w.timers) in
      let r = deactivate_production poll.gpu_config (poll.answers p) poll.ts p left in
      let (f, since, ids) = deactivate-Framed poll.gpu_config (poll.answers p) poll.ts p left in
      let P : World × Bool → Type 0 = λ s. Restarted s.0 × (s.1 ≡ true) in
      subst P (sym (visit-past poll p doc w due)) (
        again P r.1 _ _ (deactivate-throws left connected live unwritten due.stored) (
          record {
            listed =
                has-add p p r.0.timers.active_production_ids
                ∙ ap (λ b. b || has r.0.timers.active_production_ids p) (==_refl p);
            unwatched = count-same p w.timers.hub r.0.timers.hub f.subs f.watch ∙ due.unwatched;
            untimed = ap (lookup p) since ∙ lookup-removed p w.timers.idle_since;
          },
          refl,
        ))

  -- Where the database is connected and the write of the deactivation of an active or activating
  -- production past its deadline, with no operators, fails, the production stays listed and comes up
  -- again in the same poll. Its timer then starts at the poll's clock: the next deactivation is a
  -- whole timeout away.
  pub failed-restarts :
      (w : World)
      → (poll.answers p).db_connected ≡ true
      → (is_active doc.status || is_activating doc.status) ≡ true
      → (poll.answers p).written ≡ false
      → Due poll p doc w
      → let (w', again) = visit poll p w in
        (again ≡ true)
        × (has w'.timers.active_production_ids p ≡ true)
        × (lookup p (visit poll p w').0.timers.idle_since ≡ some poll.now)
  unfolding visit visit_idle
  failed-restarts w connected live unwritten due =
      let (r, more) = visit-Restarted w connected live unwritten due in
      let w' = (visit poll p w).0 in
      let path : visit poll p w' ≡ visit_idle poll p none w' =
        skipped (ltb 0 (get_subscriber_count p w'.timers.hub)) _
          (visit_idle poll p (lookup p w'.timers.idle_since) w') (ground (arith, r.unwatched))
        ∙ ap (λ o. visit_idle poll p o w') r.untimed in
      (
        more,
        r.listed,
        ap (λ s. lookup p s.0.timers.idle_since) path
            ∙ lookup-inserted p poll.now w'.timers.idle_since,
      )
