-- ===== src/Watchdog/Tests.antt =====
-- The theorems about src/services/idle-watchdog.ts at a concrete world: "p" is past its deadline,
-- "q" has an operator.
use open_live.Prelude.{
  Bool, true, false, [], ◌∷◌, some, none, string_eq, ◌==◌, ◌≡◌, refl, if◌then◌else◌, arith,
}
use open_live.Prelude.Dict.{lookup, has, insert, add, Distinct}
use open_live.Tally.{Hub, no_hub, subscribe, get_subscriber_count}
use open_live.Production.Samples.{live_doc}
use open_live.Watchdog.{IdleConfig, Timers, World, get_idle_timeout_ms}
use open_live.Watchdog.Tick.{Poll, tick, visit}
use open_live.Watchdog.Ends.{tick-ends}
use open_live.Watchdog.Spares.{in_use, tick-spares}
use open_live.Watchdog.Stops.{Due, Gone}
use open_live.Watchdog.Deadline.{tick-stops}
use open_live.Watchdog.Retry.{failed-restarts}

abbrev short : IdleConfig
short = record { idle_timeout_sec = 5; idle_warning_lead_sec = 2 }

-- The services answer; whether the write succeeds is given.
abbrev poll : Bool → Poll
poll written = record {
  idle_config = short;
  gpu_config = record { enabled = true; retention_hours = 48; accrual_floor_ms = none };
  answers = λ q. record {
    db_connected = true;
    upload = some (some "summary");
    flow_deleted = true;
    written = written;
    settled_at = 14_700_500;
  };
  now = 14_700_000;
  ts = "t";
}

abbrev watched : Hub
unfolding subscribe
watched = subscribe "q" 1 false no_hub

abbrev world : World
world = record {
  timers = record {
    idle_since = ("p", 14_690_000) ∷ [];
    idle_warned = ("p", true) ∷ [];
    active_production_ids = "p" ∷ "q" ∷ [];
    hub = watched;
  };
  docs = λ r. if "p" == r then some live_doc else none;
  activations = [];
  effects = [];
}

listed : Distinct world.timers.active_production_ids
unfolding has
listed = (refl, (refl, tt))

due : (b : Bool) → Due (poll b) "p" live_doc world
unfolding get_subscriber_count subscribe lookup insert get_idle_timeout_ms has
due b = record { unwatched = refl; expired = (14_690_000, refl, omega arith); stored = refl }

abbrev after : World
after = (tick-ends (poll true) world listed).0

tick-ends_example : (w' : World) × (tick (poll true) world ≡ some w')
tick-ends_example = tick-ends (poll true) world listed

tick-spares_example :
    (after.docs "q" ≡ world.docs "q")
    × (has after.timers.active_production_ids "q" ≡ has world.timers.active_production_ids "q")
unfolding in_use get_subscriber_count subscribe lookup insert get_idle_timeout_ms has add
tick-spares_example =
    tick-spares (poll true) "q" world after (omega arith) refl
      (tick-ends (poll true) world listed).1

tick-stops_example : Gone (poll true) "p" live_doc after
unfolding has
tick-stops_example =
    tick-stops (poll true) "p" live_doc world after listed refl
      (record { connected = refl; written = refl; live = refl }) (due true)
      (tick-ends (poll true) world listed).1

failed-restarts_example :
    ((visit (poll false) "p" world).1 ≡ true)
    × (has (visit (poll false) "p" world).0.timers.active_production_ids "p" ≡ true)
    × (lookup "p" (visit (poll false) "p" (visit (poll false) "p" world).0).0.timers.idle_since
        ≡ some 14_700_000)
failed-restarts_example = failed-restarts (poll false) "p" live_doc world refl refl refl (due false)

abbrev unwarned : Timers
unwarned = record (world.timers) { idle_warned = [] }
