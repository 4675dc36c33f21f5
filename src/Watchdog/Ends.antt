-- ===== src/Watchdog/Ends.antt =====
-- A poll of src/services/idle-watchdog.ts ends: its loop visits a production twice at most.
use open_live.Prelude.{
  ℕ, zero, suc, ◌*◌, ◌≤◌, String, false, List, [], ◌∷◌, ◌++◌, some, if◌then◌else◌, string_eq, ◌≡◌,
  refl, arith, Bool-cases, inl, inr, length, if-holds,
}
use open_live.Prelude.Dict.{has, Distinct, Distinct-snoc}
use open_live.Watchdog.{World}
use open_live.Watchdog.Tick.{Poll, visit, tick_loop, tick}
use open_live.Watchdog.Frame.{visit-Frame}
use open_live.Watchdog.Poll.{Times, cost, cost_agree, cost-snoc, visit-Again}

cost-le : (since : Times) (queue : List String) → cost since queue ≤ 2 * length queue
unfolding cost
cost-le since [] = omega arith
cost-le since (p ∷ queue) = ground (arith, cost-le since queue)

-- The cost of what is left after a visit, whether or not the production was added again.
cost-visit :
    (poll : Poll) (p : String) (queue : List String) (w : World)
    → has queue p ≡ false
    → suc (
        cost
          (visit poll p w).0.timers.idle_since
          (if (visit poll p w).1 then queue ++ p ∷ [] else queue))
      ≤ cost w.timers.idle_since (p ∷ queue)
unfolding cost
cost-visit poll p queue w out =
    let kept =
      cost_agree w.timers.idle_since (visit poll p w).0.timers.idle_since p queue out
        (visit-Frame poll p w).since in
    elim (Bool-cases (visit poll p w).1) [
      | inl e ↦
          let (ran, gone) = visit-Again poll p w e in
          let snoc = cost-snoc (visit poll p w).0.timers.idle_since queue p gone in
          rw (e, ran) (omega (arith, kept, snoc))
      | inr e ↦ rw e (ground (arith, kept))
    ]

tick_loop-ends :
    (visits : ℕ) (poll : Poll) (queue : List String) (w : World)
    → Distinct queue
    → cost w.timers.idle_since queue ≤ visits
    → (w' : World) × (tick_loop visits poll queue w ≡ some w')
unfolding tick_loop cost
tick_loop-ends visits poll [] w d le = (w, refl)
tick_loop-ends zero poll (p ∷ queue) w d le = absurd (ground (arith, le))
tick_loop-ends (suc visits) poll (p ∷ queue) w (out, d) le =
    let less = cost-visit poll p queue w out in
    let next = if (visit poll p w).1 then queue ++ p ∷ [] else queue in
    tick_loop-ends visits poll next (visit poll p w).0
      (if-holds Distinct (visit poll p w).1 (Distinct-snoc queue p d out) d)
      (omega (arith, less, le))

-- A poll over distinct productions ends within two visits for each of them.
pub tick-ends :
    (poll : Poll) (w : World)
    → Distinct w.timers.active_production_ids
    → (w' : World) × (tick poll w ≡ some w')
unfolding tick
tick-ends poll w d =
    tick_loop-ends (2 * length w.timers.active_production_ids) poll w.timers.active_production_ids w
      d (cost-le w.timers.idle_since w.timers.active_production_ids)
