-- ===== src/Tally/Tests.antt =====
-- The theorems about src/services/tally.service.ts at concrete hubs, and runs by evaluation.
use open_live.Prelude.{true, false, [], ◌∷◌, ◌++◌, List, none, string_eq, nat_eq, ◌≡◌, refl}
use open_live.Prelude.Dict.{lookup, has, insert, remove, add}
use open_live.Prelude.Json.{Json, num, str, obj, end, field, spread}
use open_live.Tally.{Hub, no_hub, subscribe, broadcast, begin_snapshot, end_snapshot, get_sockets}
use open_live.Tally.View.{view}
use open_live.Tally.Snapshot.{
  IsWell, Event, frame, cast, run, frames, received, broadcast-view, snapshot-in_order,
  next_payload,
}
use open_live.Tally.Subscribers.{IsWell-kept}

-- An operator, socket 1, and a watcher, socket 2.
abbrev viewers : Hub
unfolding subscribe
viewers = subscribe "p" 2 true (subscribe "p" 1 false no_hub)

abbrev cut : Json
cut = obj (field "type" (str "CUT") end)

abbrev connect : List Event
connect = frame (str "HELLO") ∷ cast "p" "t1" cut ∷ cast "q" "t2" cut ∷ frame (str "TALLY") ∷ []

viewers-IsWell : IsWell viewers
unfolding subscribe lookup
viewers-IsWell =
    (IsWell-kept "p" 2 true (subscribe "p" 1 false no_hub)
      (IsWell-kept "p" 1 false no_hub (λ q. tt)).0).0

broadcast-view_example :
    view 2 (broadcast "p" "t1" cut viewers) ≡ next_payload "p" "t1" cut viewers ∷ []
unfolding subscribe view lookup has get_sockets insert add
broadcast-view_example = broadcast-view "p" "t1" cut viewers 2 (viewers-IsWell "p")

snapshot-in_order_example :
    ((run 2 connect (begin_snapshot 2 viewers)).sent 2 ≡ viewers.sent 2 ++ frames connect)
    × ((end_snapshot 2 (run 2 connect (begin_snapshot 2 viewers))).sent 2
        ≡ viewers.sent 2
          ++ (frames connect ++ received 2 viewers.subscribers viewers.seq_by_production connect))
    × (lookup 2 (end_snapshot 2 (run 2 connect (begin_snapshot 2 viewers))).snapshot_buffers ≡ none)
unfolding subscribe
snapshot-in_order_example = snapshot-in_order 2 connect viewers viewers-IsWell refl

flushed :
    (end_snapshot 2 (run 2 connect (begin_snapshot 2 viewers))).sent 2
    ≡ str "HELLO"
      ∷ str "TALLY"
      ∷ obj (field "seq" (num 1) (field "ts" (str "t1") (field "type" (str "CUT") end)))
      ∷ []
unfolding subscribe run end_snapshot begin_snapshot broadcast lookup insert remove add has spread
flushed = refl
