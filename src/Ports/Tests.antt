-- ===== src/Ports/Tests.antt =====
-- The theorems about src/services/port-reservation.ts and src/services/listener-ports.ts at concrete
-- reservations.
use open_live.Prelude.{
  ℕ, zero, suc, ◌≤◌, length, ap, true, not, [], ◌∷◌, List, some, none, string_eq, nat_eq, ◌≡◌, ◌≢◌,
  refl, arith,
}
use open_live.Prelude.Dict.{has, Distinct}
use open_live.Ports.{
  PortReservation, reserved, pending, unsupported, disabled, Service, Reply, granted, unavailable,
  failed, no_client, Answers, pool_is_unconfigured,
}
use open_live.Ports.Machine.{IsWellState, IsWell, ticked, stopped, run, run-IsWell}
use open_live.Ports.Outage.{ticks, Outage, proves_nothing, Outage-falls_back}
use open_live.Ports.Listener.{
  Address, hostless, listener_port_request, with_listener_port, source, StoredAddress,
  used_listener_ports, uses_of, ResolveOptions, resolve_listener_address, resolve_request, sorted,
  lowest_free_port, assign, may_keep, taken_ports, is_excluded, port_use, use_at, insert_sorted,
}
use open_live.Ports.Resolve.{IsLeast, lowest_free_port-IsLeast}
use open_live.Ports.Describe.{expand, described_ports, runs_of, add_to_runs, expand-described_ports}
use open_live.Ports.Booking.{InRange, Safe, resolve-Safe}
use open_live.Ports.Store.{bound_ports, store-Distinct}

abbrev lease : PortReservation
lease = record { id = "r"; ports = 9003 ∷ 9001 ∷ 9002 ∷ 9010 ∷ [] }

abbrev fresh : Service
fresh = record { state = pending; unsupported_since = none; consecutive_acquire_failures = 0 }

abbrev held : Service
held = record fresh { state = reserved lease }

abbrev answers : Reply → Answers
answers r = record { reply = r; pool = none; again = failed; again_pool = none }

abbrev three_failures : List (ℕ × Answers)
three_failures = (1, answers failed) ∷ (2, answers unavailable) ∷ (3, answers no_client) ∷ []

failing : Outage three_failures
unfolding proves_nothing pool_is_unconfigured
failing = (refl, (refl, (refl, tt)))

run-IsWell_example :
    IsWell
      (run (ticked 1 (answers failed) ∷ ticked 2 (answers (granted lease)) ∷ stopped ∷ []) fresh)
unfolding IsWell IsWellState
run-IsWell_example =
    run-IsWell (ticked 1 (answers failed) ∷ ticked 2 (answers (granted lease)) ∷ stopped ∷ []) fresh
      (omega arith)

Outage-falls_back_example : (run (ticks three_failures) fresh).state ≡ unsupported
Outage-falls_back_example =
    Outage-falls_back three_failures fresh failing refl (omega arith) (omega arith)

on_at_first : fresh.state ≢ disabled
on_at_first = λ e. cc

expand-described_ports_example :
    expand (described_ports (9003 ∷ 9001 ∷ 9002 ∷ 9010 ∷ []))
    ≡ sorted (9003 ∷ 9001 ∷ 9002 ∷ 9010 ∷ [])
expand-described_ports_example = expand-described_ports (9003 ∷ 9001 ∷ 9002 ∷ 9010 ∷ [])

runs : described_ports (9003 ∷ 9001 ∷ 9002 ∷ 9010 ∷ []) ≡ (9010, 9010) ∷ (9001, 9003) ∷ []
unfolding described_ports runs_of add_to_runs sorted insert_sorted
runs = refl

lowest_free_port-IsLeast_example :
    IsLeast
      (λ p. not (has (9001 ∷ []) p))
      (9003 ∷ 9001 ∷ 9002 ∷ 9010 ∷ [])
      (lowest_free_port (9003 ∷ 9001 ∷ 9002 ∷ 9010 ∷ []) (9001 ∷ []))
lowest_free_port-IsLeast_example =
    lowest_free_port-IsLeast (9003 ∷ 9001 ∷ 9002 ∷ 9010 ∷ []) (9001 ∷ [])

-- A gateway asks for any port; a camera is stored on 9001.
abbrev any_port : Address
any_port = hostless 0 (some "listener") "?mode=listener"

abbrev camera : StoredAddress
camera = record {
  kind = source;
  id = "cam";
  name = "Camera";
  binds = true;
  address = hostless 9001 none "";
}

abbrev gateway : StoredAddress
gateway = record camera { id = "gw"; name = "Gateway"; address = any_port }

-- A query that returns the first documents only.
abbrev page : ℕ → List StoredAddress → List StoredAddress
page zero docs = []
page (suc n) [] = []
page (suc n) (d ∷ docs) = d ∷ page n docs

abbrev first_page : List StoredAddress → List StoredAddress
first_page docs = page 25 docs

page-whole : (n : ℕ) (docs : List StoredAddress) → length docs ≤ n → page n docs ≡ docs
page-whole zero [] le = refl
page-whole zero (d ∷ docs) le = absurd (omega (arith, le))
page-whole (suc n) [] le = refl
page-whole (suc n) (d ∷ docs) le = ap (λ l. d ∷ l) (page-whole n docs (omega (arith, le)))

abbrev new_doc : ResolveOptions
new_doc = record { exclude = none; keep_port = none }

in_range : InRange (reserved lease)
unfolding InRange has
in_range = λ p h. ground (arith, h)

resolve-Safe_example : Safe (reserved lease) none (used_listener_ports first_page (camera ∷ [])) (
    resolve_listener_address any_port
      (reserved lease)
      (used_listener_ports first_page (camera ∷ []))
      new_doc)
resolve-Safe_example =
    resolve-Safe any_port (reserved lease) (used_listener_ports first_page (camera ∷ [])) new_doc
      in_range

store-Distinct_example : Distinct (
    bound_ports
      (record gateway { address = hostless 9002 (some "listener") "?mode=listener" } ∷ camera ∷ []))
unfolding used_listener_ports uses_of port_use use_at listener_port_request has
    resolve_listener_address resolve_request assign taken_ports is_excluded may_keep
    lowest_free_port sorted insert_sorted with_listener_port
store-Distinct_example =
    store-Distinct first_page gateway (camera ∷ []) (reserved lease) none
      (hostless 9002 (some "listener") "?mode=listener") (some 9002) (page-whole 25) (omega arith)
      (omega arith) in_range (refl, tt) refl
