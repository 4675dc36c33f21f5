-- ===== src/Watchdog/Tick.antt =====
-- One poll of src/services/idle-watchdog.ts: the loop of `tick` over the set of active productions.
use open_live.Prelude.{
  ℕ, zero, suc, ◌+◌, ◌*◌, String, Bool, true, false, List, [], ◌∷◌, ◌++◌, Option, none, some,
  if◌then◌else◌, ltb, string_eq, length,
}
use open_live.Prelude.Dict.{lookup, insert}
use open_live.Tally.{get_subscriber_count}
use open_live.Gpu.Settle.{GpuConfig}
use open_live.Watchdog.{
  IdleConfig, get_idle_timeout_ms, Timers, reset_idle_timer, notify_production_activated,
  notify_production_deactivated, warn_if_due, Answers, World, deactivate_production,
}

abbrev pub with_timers : World → Timers → World
with_timers w t = record w { timers = t }

-- What one poll is given: the settings, the clock, and the answers of the other services for each
-- production.
pub record Poll : Type 0 where
  pub idle_config : IdleConfig
  pub gpu_config : GpuConfig
  pub answers : String → Answers
  pub now : ℕ
  pub ts : String

-- The end of the loop's body for an idle production past its deadline. The second part says that
-- the production was deleted from the set and added again, as the last element.
unfoldable pub deactivate_idle : Poll → String → World → World × Bool
deactivate_idle poll p w =
    let left = with_timers w (notify_production_deactivated p w.timers) in
    let (w', done) = deactivate_production poll.gpu_config (poll.answers p) poll.ts p left in
    if done then (w', false) else (with_timers w' (notify_production_activated p w'.timers), true)

unfoldable pub visit_idle : Poll → String → Option ℕ → World → World × Bool
unfolding deactivate_idle
visit_idle poll p none w =
    let started = record (w.timers) { idle_since = insert p poll.now w.timers.idle_since } in
    (with_timers w started, false)
visit_idle poll p (some since) w =
    if ltb poll.now (since + get_idle_timeout_ms poll.idle_config)
    then (with_timers w (warn_if_due poll.idle_config poll.now poll.ts p since w.timers), false)
    else deactivate_idle poll p w

-- The body of the loop for one production.
unfoldable pub visit : Poll → String → World → World × Bool
unfolding visit_idle
visit poll p w =
    if ltb 0 (get_subscriber_count p w.timers.hub)
    then (with_timers w (reset_idle_timer poll.ts p w.timers), false)
    else visit_idle poll p (lookup p w.timers.idle_since) w

-- `for (const productionId of activeProductionIds)`: a `Set` that is iterated visits an element
-- that was deleted and added again once more, at the end. `none` means that the visits ran out.
unfoldable pub tick_loop : ℕ → Poll → List String → World → Option World
unfolding visit
tick_loop visits poll [] w = some w
tick_loop zero poll (p ∷ queue) w = none
tick_loop (suc visits) poll (p ∷ queue) w =
    let (w', again) = visit poll p w in
    tick_loop visits poll (if again then queue ++ p ∷ [] else queue) w'

-- Two visits for each active production are enough.
unfoldable pub tick : Poll → World → Option World
unfolding tick_loop
tick poll w =
    tick_loop (2 * length w.timers.active_production_ids) poll w.timers.active_production_ids w
