-- ===== src/Ports.antt =====
-- src/services/port-reservation.ts: the reservation of SRT listener ports from Strom's pool, as a
-- state and the step that each scheduler tick takes. What Strom answers is given to the step.
pub mod Machine
pub mod Outage
pub mod Listener
pub mod Resolve
pub mod Describe
pub mod Booking
pub mod Store
pub mod Tests
use open_live.Prelude.{
  ℕ, ◌+◌, String, Bool, true, false, ◌&&◌, ◌||◌, List, [], Option, none, some, if◌then◌else◌, ltb,
  leb, nat_eq, keep,
}
use open_live.Prelude.Dict.{has}

pub record PortReservation : Type 0 where
  pub id : String
  pub ports : List ℕ

pub data PortReservationState : Type 0 where
  reserved : PortReservation → PortReservationState
  pending unsupported disabled : PortReservationState

-- The variables of the module.
pub record Service : Type 0 where
  pub state : PortReservationState
  pub unsupported_since : Option ℕ
  pub consecutive_acquire_failures : ℕ

-- How a call of Strom ends: a reservation, an error with one of the statuses that matter, any other
-- error, or no client to call.
pub data Reply : Type 0 where
  granted : PortReservation → Reply
  not_found conflict unavailable failed no_client : Reply

abbrev pub unsupported_retry_ms : ℕ
unsupported_retry_ms = 600_000

abbrev pub max_acquire_failures : ℕ
max_acquire_failures = 3

abbrev pub is_unsupported : PortReservationState → Bool
is_unsupported unsupported = true
is_unsupported _ = false

unfoldable pub reserved_ports : Service → List ℕ
reserved_ports s = elim s.state [ reserved r ↦ r.ports | _ ↦ [] ]

-- The answer of `GET /api/ports` is its `enabled`; `none` where the call throws.
unfoldable pub pool_is_unconfigured : Option Bool → Bool
pool_is_unconfigured (some false) = true
pool_is_unconfigured _ = false

abbrev pub switched_off : Service
switched_off = record {
  state = disabled;
  unsupported_since = none;
  consecutive_acquire_failures = 0;
}

unfoldable pub fall_back_to_unsupported : ℕ → Service
fall_back_to_unsupported now = record {
  state = unsupported;
  unsupported_since = some now;
  consecutive_acquire_failures = 0;
}

-- The last part of `acquire`, for an error that proves nothing.
unfoldable pub inconclusive : ℕ → Service → Service
unfolding fall_back_to_unsupported
inconclusive now s =
    let failures = s.consecutive_acquire_failures + 1 in
    if is_unsupported s.state || leb max_acquire_failures failures
    then fall_back_to_unsupported now
    else record s { state = pending; consecutive_acquire_failures = failures }

unfoldable pub acquire : ℕ → Reply → Option Bool → Service → Service
unfolding inconclusive pool_is_unconfigured
acquire now (granted r) pool s = record {
  state = reserved r;
  unsupported_since = none;
  consecutive_acquire_failures = 0;
}
acquire now not_found pool s = fall_back_to_unsupported now
acquire now conflict pool s = record s { state = pending }
acquire now unavailable pool s =
    if pool_is_unconfigured pool then switched_off else inconclusive now s
acquire now failed pool s = inconclusive now s
acquire now no_client pool s = inconclusive now s

-- What one tick is answered: the renewal or creation with its look at the pool, and the creation
-- that follows a vanished reservation with its own.
pub record Answers : Type 0 where
  pub reply : Reply
  pub pool : Option Bool
  pub again : Reply
  pub again_pool : Option Bool

-- `renew`, by what the renewal is answered.
unfoldable pub renew_answered : Reply → ℕ → Answers → Service → Service
unfolding acquire
renew_answered (granted r) now a s = record s { state = reserved r }
renew_answered not_found now a s = acquire now a.again a.again_pool (record s { state = pending })
renew_answered unavailable now a s = if pool_is_unconfigured a.pool then switched_off else s
renew_answered conflict now a s = s
renew_answered failed now a s = s
renew_answered no_client now a s = s

unfoldable pub renew : ℕ → Answers → Service → Service
unfolding renew_answered
renew now a s = renew_answered a.reply now a s

-- `Date.now() - unsupportedSince < UNSUPPORTED_RETRY_MS`
unfoldable pub waits : ℕ → Option ℕ → Bool
waits now none = false
waits now (some since) = ltb now (since + unsupported_retry_ms)

-- The `switch` of one scheduler step.
unfoldable pub tick_from : PortReservationState → ℕ → Answers → Service → Service
unfolding renew waits
tick_from disabled now a s = s
tick_from (reserved r) now a s = renew now a s
tick_from unsupported now a s =
    if waits now s.unsupported_since then s else acquire now a.reply a.pool s
tick_from pending now a s = acquire now a.reply a.pool s

-- One scheduler step; `inflightTick` keeps steps from overlapping.
unfoldable pub tick_port_reservation : ℕ → Answers → Service → Service
unfolding tick_from
tick_port_reservation now a s = tick_from s.state now a s

unfoldable pub stop_from : PortReservationState → Service → Service
stop_from (reserved r) s = record s { state = pending }
stop_from pending s = s
stop_from unsupported s = s
stop_from disabled s = s

-- The release that Strom is asked for leaves no trace here, whether it succeeds or not.
unfoldable pub stop_port_reservation : Service → Service
unfolding stop_from
stop_port_reservation s = stop_from s.state s

-- The ports that `assignPortsToFlow` declares for a flow; it calls Strom where there are some.
unfoldable pub ports_to_assign : List ℕ → Service → List ℕ
unfolding reserved_ports
ports_to_assign ports s = keep (λ p. has (reserved_ports s) p) ports
