-- ===== src/Watchdog/Spares.antt =====
-- A poll of src/services/idle-watchdog.ts spares each production that is in use.
use open_live.Prelude.{
  ℕ, zero, suc, ◌+◌, ◌<◌, String, Bool, true, false, ◌||◌, List, [], ◌∷◌, Option, none, some, ltb,
  ◌==◌, string_eq, ◌≡◌, refl, ◌∙◌, arith, Bool-cases, inl, inr, if-holds, ==_refl, subst, sym, ap,
  get_or,
}
use open_live.Prelude.Dict.{lookup, remove, has, lookup-insert, lookup-remove}
use open_live.Tally.{get_subscriber_count, get_operator_sockets, Hub}
use open_live.Watchdog.{World, reset_idle_timer, warn_if_due, get_idle_timeout_ms}
use open_live.Watchdog.Tick.{Poll, with_timers, visit_idle, visit, tick_loop, tick}
use open_live.Watchdog.Frame.{Frame, visit-Frame}

-- A production is in use while it has operators, or while it is idle for less than the timeout.
unfoldable pub not_due : ℕ → ℕ → Option ℕ → Bool
not_due now timeout_ms none = true
not_due now timeout_ms (some since) = ltb now (since + timeout_ms)

unfoldable pub in_use : Poll → String → World → Bool
unfolding not_due
in_use poll p w =
    ltb 0 (get_subscriber_count p w.timers.hub)
    || not_due poll.now (get_idle_timeout_ms poll.idle_config) (lookup p w.timers.idle_since)

-- The document and the membership in the set of active productions are kept.
record Kept (p : String) (w w' : World) : Type 0 where
  doc : w'.docs p ≡ w.docs p
  id : has w'.timers.active_production_ids p ≡ has w.timers.active_production_ids p

pub count-same :
    (p : String) (h h' : Hub)
    → h'.subscribers ≡ h.subscribers
    → h'.watch_only_sockets ≡ h.watch_only_sockets
    → get_subscriber_count p h' ≡ get_subscriber_count p h
unfolding get_subscriber_count get_operator_sockets
count-same p h h' s o = rw (s, o) refl

in_use-Frame :
    (poll : Poll) (q p : String) (w w' : World)
    → (q == p) ≡ false
    → Frame q w w'
    → in_use poll p w' ≡ in_use poll p w
unfolding in_use
in_use-Frame poll q p w w' ne f =
    rw (count-same p w.timers.hub w'.timers.hub f.subs f.watch, f.since p ne) refl

module _ (poll : Poll) (positive : 0 < get_idle_timeout_ms poll.idle_config) (p : String) where
  abbrev Spared : World → World → Type 0
  Spared w w' = Kept p w w' × (in_use poll p w' ≡ true)

  not_due-in_use :
      (w : World) (o : Option ℕ)
      → lookup p w.timers.idle_since ≡ o
      → not_due poll.now (get_idle_timeout_ms poll.idle_config) o ≡ true
      → in_use poll p w ≡ true
  unfolding in_use
  not_due-in_use w o e h = rw (e, h) (ground arith)

  started : not_due poll.now (get_idle_timeout_ms poll.idle_config) (some poll.now) ≡ true
  unfolding not_due
  started = ground (arith, positive)

  warn_if_due-Spared :
      (w : World) (since : ℕ)
      → lookup p w.timers.idle_since ≡ some since
      → not_due poll.now (get_idle_timeout_ms poll.idle_config) (some since) ≡ true
      → Spared w (with_timers w (warn_if_due poll.idle_config poll.now poll.ts p since w.timers))
  unfolding warn_if_due
  warn_if_due-Spared w since e h =
      if-holds (λ t. Spared w (with_timers w t)) _
        (record { doc = refl; id = refl }, not_due-in_use (with_timers w _) (some since) e h)
        (record { doc = refl; id = refl }, not_due-in_use (with_timers w _) (some since) e h)

  visit_idle-Spared :
      (o : Option ℕ) (w : World)
      → lookup p w.timers.idle_since ≡ o
      → not_due poll.now (get_idle_timeout_ms poll.idle_config) o ≡ true
      → Spared w (visit_idle poll p o w).0
  unfolding visit_idle not_due
  visit_idle-Spared none w e h = (
    record { doc = refl; id = refl },
    not_due-in_use _ (some poll.now)
        (rw (lookup-insert p p poll.now w.timers.idle_since, ==_refl p) refl) started,
  )
  visit_idle-Spared (some since) w e h = rw h (warn_if_due-Spared w since e h)

  reset_idle_timer-Spared :
      (w : World) → Spared w (with_timers w (reset_idle_timer poll.ts p w.timers))
  unfolding reset_idle_timer not_due
  reset_idle_timer-Spared w =
      let gone : lookup p (remove p w.timers.idle_since) ≡ none =
        rw (lookup-remove p p w.timers.idle_since, ==_refl p) refl in
      if-holds (λ t. Spared w (with_timers w t)) (get_or (lookup p w.timers.idle_warned) false)
        (record { doc = refl; id = refl }, not_due-in_use (with_timers w _) none gone refl)
        (record { doc = refl; id = refl }, not_due-in_use (with_timers w _) none gone refl)

  visit-Spared : (w : World) → in_use poll p w ≡ true → Spared w (visit poll p w).0
  unfolding visit in_use
  visit-Spared w h = elim (Bool-cases (ltb 0 (get_subscriber_count p w.timers.hub))) [
    | inl e ↦ rw e (reset_idle_timer-Spared w)
    | inr e ↦ rw e (visit_idle-Spared (lookup p w.timers.idle_since) w refl (ground (arith, e, h)))
  ]

  -- A visit of any production.
  any_visit-Spared : (q : String) (w : World) → in_use poll p w ≡ true → Spared w (visit poll q w).0
  any_visit-Spared q w h = elim (Bool-cases (q == p)) [
    | inl e ↦
        subst (λ r. Spared w (visit poll r w).0) (sym ((string_eq.beq_iff q p).0 e))
          (visit-Spared w h)
    | inr e ↦
        let f = visit-Frame poll q w in
        (record { doc = f.docs p e; id = f.ids p e }, in_use-Frame poll q p w _ e f ∙ h)
  ]

  tick_loop-Spared :
      (visits : ℕ) (queue : List String) (w w' : World)
      → in_use poll p w ≡ true
      → tick_loop visits poll queue w ≡ some w'
      → Spared w w'
  unfolding tick_loop
  tick_loop-Spared visits [] w w' h e =
      subst (λ u. Spared w u) (ap (λ o. get_or o w) e) (record { doc = refl; id = refl }, h)
  tick_loop-Spared zero (q ∷ queue) w w' h e = absurd (ground (arith, e))
  tick_loop-Spared (suc visits) (q ∷ queue) w w' h e =
      let (kept, still) = any_visit-Spared q w h in
      let (kept', still') = tick_loop-Spared visits _ (visit poll q w).0 w' still e in
      (record { doc = kept'.doc ∙ kept.doc; id = kept'.id ∙ kept.id }, still')

-- Where the timeout is above 0, a production has operators or has not been idle for the timeout, and
-- a poll has ended, the poll has neither changed the production's document nor whether it is in the
-- set of active productions.
pub tick-spares :
    (poll : Poll) (p : String) (w w' : World)
    → 0 < get_idle_timeout_ms poll.idle_config
    → in_use poll p w ≡ true
    → tick poll w ≡ some w'
    → (w'.docs p ≡ w.docs p)
      × (has w'.timers.active_production_ids p ≡ has w.timers.active_production_ids p)
unfolding tick
tick-spares poll p w w' positive h e =
    let (kept, still) = tick_loop-Spared poll positive p _ _ w w' h e in (kept.doc, kept.id)
