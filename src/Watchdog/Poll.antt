-- ===== src/Watchdog/Poll.antt =====
-- Whole polls of src/services/idle-watchdog.ts: they end, and they spare what is in use.
use open_live.Prelude.{
  ℕ, ◌+◌, String, Bool, true, false, List, [], ◌∷◌, ◌++◌, Option, none, some, if◌then◌else◌, ltb,
  is_some, ◌==◌, string_eq, ◌≡◌, refl, arith, if-holds, ==_refl,
}
use open_live.Prelude.Dict.{lookup, has, lookup-remove}
use open_live.Tally.{get_subscriber_count}
use open_live.Watchdog.{
  notify_production_activated, notify_production_deactivated, World, deactivate_production,
  get_idle_timeout_ms,
}
use open_live.Watchdog.Tick.{Poll, with_timers, deactivate_idle, visit_idle, visit}
use open_live.Watchdog.Frame.{deactivate-Framed}

abbrev pub Times : Type 0
Times = List (String × ℕ)

-- How many visits a queue may take: a production with a running timer may come twice.
unfoldable pub cost : Times → List String → ℕ
cost since [] = 0
cost since (p ∷ queue) = (if is_some (lookup p since) then 2 else 1) + cost since queue

pub cost_agree :
    (s t : Times) (p : String) (queue : List String)
    → has queue p ≡ false
    → ((q : String) → (p == q) ≡ false → lookup q t ≡ lookup q s)
    → cost t queue ≡ cost s queue
unfolding cost has
cost_agree s t p [] out same = refl
cost_agree s t p (q ∷ queue) out same =
    ground
      (arith, string_eq.beq_iff q p, string_eq.beq_iff p q, same q, cost_agree s t p queue, same)

pub cost-snoc :
    (s : Times) (queue : List String) (p : String)
    → lookup p s ≡ none
    → cost s (queue ++ p ∷ []) ≡ cost s queue + 1
unfolding cost
cost-snoc s [] p e = rw e (omega arith)
cost-snoc s (q ∷ queue) p e = omega (arith, cost-snoc s queue p e)

-- A production that is visited again had a running timer, and has none any more.
module _ (poll : Poll) (p : String) where
  abbrev Again : World → World × Bool → Type 0
  Again w r =
      r.1 ≡ true
      → (is_some (lookup p w.timers.idle_since) ≡ true) × (lookup p r.0.timers.idle_since ≡ none)

  deactivate_idle-Again :
      (w : World) (s : ℕ)
      → lookup p w.timers.idle_since ≡ some s
      → Again w (deactivate_idle poll p w)
  unfolding deactivate_idle notify_production_deactivated notify_production_activated
  deactivate_idle-Again w s e =
      let left = with_timers w (notify_production_deactivated p w.timers) in
      let kept = (deactivate-Framed poll.gpu_config (poll.answers p) poll.ts p left).1 in
      if-holds {A = World × Bool} (λ r. Again w r)
        (deactivate_production poll.gpu_config (poll.answers p) poll.ts p left).1 (λ f. cc)
        (λ f. (rw e, rw (kept, lookup-remove p p w.timers.idle_since, ==_refl p)))

  visit_idle-Again :
      (o : Option ℕ) (w : World)
      → lookup p w.timers.idle_since ≡ o
      → Again w (visit_idle poll p o w)
  unfolding visit_idle
  visit_idle-Again none w e = λ f. cc
  visit_idle-Again (some s) w e =
      if-holds {A = World × Bool} (λ r. Again w r)
        (ltb poll.now (s + get_idle_timeout_ms poll.idle_config)) (λ f. cc)
        (deactivate_idle-Again w s e)

  pub visit-Again : (w : World) → Again w (visit poll p w)
  unfolding visit
  visit-Again w =
      if-holds {A = World × Bool} (λ r. Again w r) (ltb 0 (get_subscriber_count p w.timers.hub))
        (λ f. cc) (visit_idle-Again (lookup p w.timers.idle_since) w refl)
