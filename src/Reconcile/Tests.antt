-- ===== src/Reconcile/Tests.antt =====
-- The theorems about src/services/reconcile.ts at a concrete production.
use open_live.Prelude.{[], ◌∷◌, List, Option, String, some, none, string_eq, get_or}
use open_live.Production.{ProductionDoc, activating}
use open_live.Production.Samples.{live_doc}
use open_live.Reconcile.{Flow, reconcile_doc}
use open_live.Reconcile.Runs.{Runs}
use open_live.Reconcile.Agrees.{Agrees, reconcile-Agrees}

-- A production whose flow was started, but not written back.
abbrev flows : List Flow
flows = record { id = "g"; prod_id = some "p" } ∷ []

abbrev half_started : ProductionDoc
half_started = record live_doc { status = activating; strom_flow_id = none }

reconcile-Agrees_example :
    (live : Option String) × Runs flows half_started live
    × Agrees live half_started (get_or (reconcile_doc flows 9_000_000 half_started) half_started)
reconcile-Agrees_example = reconcile-Agrees flows 9_000_000 half_started
