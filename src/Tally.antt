-- ===== src/Tally.antt =====
-- src/services/tally.service.ts: subscribers, watch-only sockets, snapshot buffers, the sequence
-- counter and `broadcast`. A socket is a number.
pub mod View
pub mod Snapshot
pub mod Subscribers
pub mod Seq
mod Tests
use open_live.Prelude.{
  ℕ, String, ◌+◌, Bool, true, not, List, [], ◌∷◌, ◌++◌, Option, none, some, if◌then◌else◌, ◌==◌,
  string_eq, nat_eq, get_or, keep, length,
}
use open_live.Prelude.Dict.{lookup, insert, remove, has, add, delete}
use open_live.Prelude.Json.{Json, null, bool, num, str, arr, obj, end, field, spread}

pub record Tally : Type 0 where
  pub pgm : Option String
  pub pvw : Option String

-- `ready ws` is `ws.readyState === ws.OPEN`, and `sent ws` is what `ws.send` was called with,
-- oldest first.
pub record Hub : Type 0 where
  pub tally_state : List (String × Tally)
  pub subscribers : List (String × List ℕ)
  pub watch_only_sockets : List ℕ
  pub snapshot_buffers : List (ℕ × List Json)
  pub seq_by_production : List (String × ℕ)
  pub ready : ℕ → Bool
  pub sent : ℕ → List Json

abbrev pub no_hub : Hub
no_hub = record {
  tally_state = [];
  subscribers = [];
  watch_only_sockets = [];
  snapshot_buffers = [];
  seq_by_production = [];
  ready = λ _. true;
  sent = λ _. [];
}

unfoldable pub current_seq : String → Hub → ℕ
current_seq production_id h = get_or (lookup production_id h.seq_by_production) 0

unfoldable pub next_seq : String → Hub → ℕ × Hub
next_seq production_id h =
    let next = get_or (lookup production_id h.seq_by_production) 0 + 1 in
    (next, record h { seq_by_production = insert production_id next h.seq_by_production })

unfoldable pub get_tally : String → Hub → Tally
get_tally production_id h =
    get_or (lookup production_id h.tally_state) (record { pgm = none; pvw = none })

unfoldable pub set_tally : String → Tally → Hub → Hub
set_tally production_id tally h = record h {
  tally_state = insert production_id tally h.tally_state;
}

unfoldable pub subscribe : String → ℕ → Bool → Hub → Hub
subscribe production_id ws watch_only h = record h {
  subscribers =
      insert production_id (add ws (get_or (lookup production_id h.subscribers) [])) h.subscribers;
  watch_only_sockets = if watch_only then add ws h.watch_only_sockets else h.watch_only_sockets;
}

-- `subscribers.get(productionId)?.delete(ws)`
unfoldable pub drop_subscriber : String → ℕ → List (String × List ℕ) → List (String × List ℕ)
drop_subscriber production_id ws m = elim (lookup production_id m) [
  | none ↦ m
  | some subs ↦ insert production_id (delete ws subs) m
]

unfoldable pub unsubscribe : String → ℕ → Hub → Hub
unfolding drop_subscriber
unsubscribe production_id ws h = record h {
  subscribers = drop_subscriber production_id ws h.subscribers;
  snapshot_buffers = remove ws h.snapshot_buffers;
}

unfoldable pub begin_snapshot : ℕ → Hub → Hub
begin_snapshot ws h = record h { snapshot_buffers = insert ws [] h.snapshot_buffers }

-- `ws.send(payload)`
unfoldable pub send : ℕ → Json → Hub → Hub
send ws payload h = record h { sent = λ j. if ws == j then h.sent j ++ payload ∷ [] else h.sent j }

unfoldable pub send_all : ℕ → List Json → Hub → Hub
unfolding send
send_all ws [] h = h
send_all ws (payload ∷ rest) h = send_all ws rest (send ws payload h)

unfoldable pub end_snapshot : ℕ → Hub → Hub
unfolding send_all
end_snapshot ws h =
    let dropped = record h { snapshot_buffers = remove ws h.snapshot_buffers } in
    elim (lookup ws h.snapshot_buffers) [
      | none ↦ dropped
      | some buffered ↦ if not (h.ready ws) then dropped else send_all ws buffered dropped
    ]

unfoldable pub get_sockets : String → Hub → List ℕ
get_sockets production_id h = get_or (lookup production_id h.subscribers) []

unfoldable pub get_operator_sockets : String → Hub → List ℕ
get_operator_sockets production_id h =
    keep (λ ws. not (has h.watch_only_sockets ws)) (get_or (lookup production_id h.subscribers) [])

unfoldable pub get_subscriber_count : String → Hub → ℕ
unfolding get_operator_sockets
get_subscriber_count production_id h = length (get_operator_sockets production_id h)

-- the loop of `getWatcherCount`
unfoldable pub count_watchers : List ℕ → ℕ → List ℕ → ℕ
count_watchers watch_only count [] = count
count_watchers watch_only count (ws ∷ subs) =
    count_watchers watch_only (if has watch_only ws then count + 1 else count) subs

unfoldable pub get_watcher_count : String → Hub → ℕ
unfolding count_watchers
get_watcher_count production_id h =
    count_watchers h.watch_only_sockets 0 (get_or (lookup production_id h.subscribers) [])

-- `{ seq, ts, ...message }` for an object; anything else is sent as it is. `JSON.stringify` is
-- left out: a payload is the value that it prints.
unfoldable pub stamp : ℕ → String → Json → Json
stamp seq ts (obj message) = obj (spread (field "seq" (num seq) (field "ts" (str ts) end)) message)
stamp seq ts null = null
stamp seq ts (bool b) = bool b
stamp seq ts (num n) = num n
stamp seq ts (str s) = str s
stamp seq ts (arr items) = arr items

-- one round of the loop of `broadcast`
unfoldable pub deliver : Json → ℕ → Hub → Hub
unfolding send
deliver payload ws h = if not (h.ready ws) then h else elim (lookup ws h.snapshot_buffers) [
  | none ↦ send ws payload h
  | some buffer ↦ record h {
    snapshot_buffers = insert ws (buffer ++ payload ∷ []) h.snapshot_buffers;
  }
]

unfoldable pub deliver_all : Json → List ℕ → Hub → Hub
unfolding deliver
deliver_all payload [] h = h
deliver_all payload (ws ∷ subs) h = deliver_all payload subs (deliver payload ws h)

-- `ts` is the time that `new Date().toISOString()` reads.
unfoldable pub broadcast : String → String → Json → Hub → Hub
unfolding next_seq stamp deliver_all
broadcast production_id ts message h = elim (lookup production_id h.subscribers) [
  | none ↦ h
  | some subs ↦
      let (seq, h') = next_seq production_id h in deliver_all (stamp seq ts message) subs h'
]
