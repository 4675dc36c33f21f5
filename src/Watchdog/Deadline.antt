-- ===== src/Watchdog/Deadline.antt =====
-- A poll of src/services/idle-watchdog.ts reaches each production that is past its deadline.
use open_live.Prelude.{
  ℕ, zero, suc, String, Bool, true, false, List, [], ◌∷◌, ◌++◌, some, if◌then◌else◌, ◌==◌,
  string_eq, ◌≡◌, ◌∙◌, arith, Bool-cases, inl, inr, if-holds, subst, ap, get_or,
}
use open_live.Prelude.Dict.{has, has-append, Distinct, Distinct-snoc}
use open_live.Production.{ProductionDoc}
use open_live.Watchdog.{World}
use open_live.Watchdog.Tick.{Poll, visit, tick_loop, tick}
use open_live.Watchdog.Frame.{Frame, visit-Frame}
use open_live.Watchdog.Spares.{count-same}
use open_live.Watchdog.Stops.{Answered, Due, Gone, visit-Gone}

module _ (poll : Poll) (p : String) (doc : ProductionDoc) where
  Due-Frame :
      (q : String) (w w' : World)
      → (q == p) ≡ false
      → Frame q w w'
      → Due poll p doc w
      → Due poll p doc w'
  Due-Frame q w w' ne f due =
      let (since, e, past) = due.expired in
      record {
        unwatched = count-same p w.timers.hub w'.timers.hub f.subs f.watch ∙ due.unwatched;
        expired = (since, f.since p ne ∙ e, past);
        stored = f.docs p ne ∙ due.stored;
      }

  Gone-Frame :
      (q : String) (w w' : World)
      → (q == p) ≡ false
      → Frame q w w'
      → Gone poll p doc w
      → Gone poll p doc w'
  Gone-Frame q w w' ne f gone = record {
    doc_stopped = f.docs p ne ∙ gone.doc_stopped;
    stopped = gone.stopped;
    not_listed = f.ids p ne ∙ gone.not_listed;
    no_timer = f.since p ne ∙ gone.no_timer;
  }

  -- Where a production is added again, the queue keeps whether it holds another one.
  again-has :
      (b : Bool) (q : String) (queue : List String)
      → (q == p) ≡ false
      → has (if b then queue ++ q ∷ [] else queue) p ≡ has queue p
  unfolding has
  again-has b q queue ne = ground (arith, has-append queue (q ∷ []) p, ne)

  again-Distinct :
      (b : Bool) (q : String) (queue : List String)
      → has queue q ≡ false
      → Distinct queue
      → Distinct (if b then queue ++ q ∷ [] else queue)
  again-Distinct b q queue out d = if-holds Distinct b (Distinct-snoc queue q d out) d

  -- A loop that does not come to the production leaves it gone.
  rest-Gone :
      (visits : ℕ) (queue : List String) (w w' : World)
      → has queue p ≡ false
      → Gone poll p doc w
      → tick_loop visits poll queue w ≡ some w'
      → Gone poll p doc w'
  unfolding tick_loop has
  rest-Gone visits [] w w' out gone e = subst (λ u. Gone poll p doc u) (ap (λ o. get_or o w) e) gone
  rest-Gone zero (q ∷ queue) w w' out gone e = absurd (ground (arith, e))
  rest-Gone (suc visits) (q ∷ queue) w w' out gone e =
      let ne : (q == p) ≡ false = ground (arith, out) in
      let w₁ = (visit poll q w).0 in
      rest-Gone visits _ w₁ w' (again-has (visit poll q w).1 q queue ne ∙ ground (arith, out))
        (Gone-Frame q w w₁ ne (visit-Frame poll q w) gone) e

  first-Gone :
      (visits : ℕ) (queue : List String) (w w' : World)
      → Answered poll p doc
      → has queue p ≡ false
      → Due poll p doc w
      → tick_loop (suc visits) poll (p ∷ queue) w ≡ some w'
      → Gone poll p doc w'
  unfolding tick_loop
  first-Gone visits queue w w' a out due e =
      let (gone, done) = visit-Gone poll p doc w a due in
      rest-Gone visits _ (visit poll p w).0 w'
        (ap (λ b. has (if b then queue ++ p ∷ [] else queue) p) done ∙ out) gone e

  tick_loop-Gone :
      (visits : ℕ) (queue : List String) (w w' : World)
      → Answered poll p doc
      → Distinct queue
      → has queue p ≡ true
      → Due poll p doc w
      → tick_loop visits poll queue w ≡ some w'
      → Gone poll p doc w'
  unfolding tick_loop has
  tick_loop-Gone visits [] w w' a d on due e = absurd (ground (arith, on))
  tick_loop-Gone zero (q ∷ queue) w w' a d on due e = absurd (ground (arith, e))
  tick_loop-Gone (suc visits) (q ∷ queue) w w' a (out, d) on due e =
      let w₁ = (visit poll q w).0 in
      let next = if (visit poll q w).1 then queue ++ q ∷ [] else queue in
      elim (Bool-cases (q == p)) [
        | inl h ↦
            let same = (string_eq.beq_iff q p).0 h in
            first-Gone visits queue w w' a (subst (λ r. has queue r ≡ false) same out) due
              (subst (λ r. tick_loop (suc visits) poll (r ∷ queue) w ≡ some w') same e)
        | inr h ↦
            tick_loop-Gone visits next w₁ w' a (again-Distinct (visit poll q w).1 q queue out d)
              (again-has (visit poll q w).1 q queue h ∙ ground (arith, on, h))
              (Due-Frame q w w₁ h (visit-Frame poll q w) due) e
      ]

-- A poll over distinct productions stops each listed one that is active or activating and past its
-- deadline with no operators, where the database is connected and its write succeeds: the stored
-- document is then ended for idleness if it was active and inactive if it was activating, marked as
-- stopped by itself, with no start time, Strom flow, mixer or tally and the outputs that it had, and
-- the production is no longer listed or timed.
pub tick-stops :
    (poll : Poll) (p : String) (doc : ProductionDoc) (w w' : World)
    → Distinct w.timers.active_production_ids
    → has w.timers.active_production_ids p ≡ true
    → Answered poll p doc
    → Due poll p doc w
    → tick poll w ≡ some w'
    → Gone poll p doc w'
unfolding tick
tick-stops poll p doc w w' d on a due e = tick_loop-Gone poll p doc _ _ w w' a d on due e
