-- ===== src/Ports/Machine.antt =====
-- The states that ticks of src/services/port-reservation.ts lead through.
use open_live.Prelude.{
  ℕ, ◌+◌, ◌<◌, Bool, true, ◌||◌, List, [], ◌∷◌, Option, none, is_some, leb, ◌≡◌, refl, arith, inl,
  inr, Bool-cases, if-holds,
}
use open_live.Ports.{
  PortReservation, PortReservationState, reserved, pending, unsupported, disabled, Service, Reply,
  granted, not_found, conflict, unavailable, failed, no_client, is_unsupported,
  fall_back_to_unsupported, inconclusive, acquire, Answers, renew, renew_answered, tick_from, waits,
  tick_port_reservation, stop_port_reservation, stop_from, pool_is_unconfigured,
  max_acquire_failures,
}

-- The facts that hold of the module's variables at any time: between steps a reservation, and a
-- service that is switched off or falls back, has no failures on its count.
unfoldable pub IsWellState : PortReservationState → Option ℕ → ℕ → Type 0
IsWellState (reserved r) since failures = (since ≡ none) × (failures ≡ 0)
IsWellState pending since failures = failures < max_acquire_failures
IsWellState unsupported since failures = (is_some since ≡ true) × (failures ≡ 0)
IsWellState disabled since failures = (since ≡ none) × (failures ≡ 0)

unfoldable pub IsWell : Service → Type 0
unfolding IsWellState
IsWell s = IsWellState s.state s.unsupported_since s.consecutive_acquire_failures

pub data Event : Type 0 where
  ticked : ℕ → Answers → Event
  stopped : Event

unfoldable pub apply : Event → Service → Service
apply (ticked now a) s = tick_port_reservation now a s
apply stopped s = stop_port_reservation s

unfoldable pub run : List Event → Service → Service
unfolding apply
run [] s = s
run (e ∷ es) s = run es (apply e s)

module _ (now : ℕ) where
  inconclusive-IsWell : (s : Service) → IsWell (inconclusive now s)
  unfolding IsWell inconclusive fall_back_to_unsupported
  inconclusive-IsWell s =
      elim (Bool-cases
        (is_unsupported s.state || leb max_acquire_failures (s.consecutive_acquire_failures + 1))) [
          | inl e ↦ rw e (refl, refl)
          | inr e ↦ rw e (ground (arith, e))
        ]

  acquire-IsWell :
      (r : Reply) (pool : Option Bool) (s : Service)
      → s.consecutive_acquire_failures < max_acquire_failures
      → IsWell (acquire now r pool s)
  unfolding IsWell acquire fall_back_to_unsupported
  acquire-IsWell (granted r) pool s few = (refl, refl)
  acquire-IsWell not_found pool s few = (refl, refl)
  acquire-IsWell conflict pool s few = few
  acquire-IsWell unavailable pool s few =
      if-holds IsWell (pool_is_unconfigured pool) (refl, refl) (inconclusive-IsWell s)
  acquire-IsWell failed pool s few = inconclusive-IsWell s
  acquire-IsWell no_client pool s few = inconclusive-IsWell s

  renew_answered-IsWell :
      (r : Reply) (a : Answers) (held : PortReservation) (since : Option ℕ) (n : ℕ)
      → since ≡ none
      → n ≡ 0
      → IsWell (
          renew_answered r now a (record {
            state = reserved held;
            unsupported_since = since;
            consecutive_acquire_failures = n;
          }))
  unfolding IsWell renew_answered
  renew_answered-IsWell (granted fresh) a held since n unset zeroed = (unset, zeroed)
  renew_answered-IsWell not_found a held since n unset zeroed =
      acquire-IsWell a.again a.again_pool _ (ground (arith, zeroed))
  renew_answered-IsWell unavailable a held since n unset zeroed =
      if-holds IsWell (pool_is_unconfigured a.pool) (refl, refl) (unset, zeroed)
  renew_answered-IsWell conflict a held since n unset zeroed = (unset, zeroed)
  renew_answered-IsWell failed a held since n unset zeroed = (unset, zeroed)
  renew_answered-IsWell no_client a held since n unset zeroed = (unset, zeroed)

  tick-IsWell :
      (a : Answers) (state : PortReservationState) (since : Option ℕ) (n : ℕ)
      → IsWellState state since n
      → IsWell (
          tick_port_reservation now a
            (record { state = state; unsupported_since = since; consecutive_acquire_failures = n }))
  unfolding IsWell tick_port_reservation tick_from renew
  tick-IsWell a disabled since n w = w
  tick-IsWell a pending since n w = acquire-IsWell a.reply a.pool _ w
  tick-IsWell a unsupported since n (probed, zeroed) =
      if-holds IsWell (waits now since) (probed, zeroed)
        (acquire-IsWell a.reply a.pool _ (ground (arith, zeroed)))
  tick-IsWell a (reserved r) since n (unset, zeroed) =
      renew_answered-IsWell a.reply a r since n unset zeroed

stop-IsWell :
    (state : PortReservationState) (since : Option ℕ) (n : ℕ)
    → IsWellState state since n
    → IsWell (
        stop_port_reservation
          (record { state = state; unsupported_since = since; consecutive_acquire_failures = n }))
unfolding IsWell stop_port_reservation stop_from
stop-IsWell disabled since n w = w
stop-IsWell pending since n w = w
stop-IsWell unsupported since n w = w
stop-IsWell (reserved r) since n (unset, zeroed) = ground (arith, zeroed)

-- Whatever Strom answers, ticks and stops keep the failure count below the limit, and at 0 where
-- ports are held, where the service is switched off and where it has fallen back, which has a time.
pub run-IsWell : (es : List Event) (s : Service) → IsWell s → IsWell (run es s)
unfolding run apply IsWell
run-IsWell [] s w = w
run-IsWell (ticked now a ∷ es) s w =
    run-IsWell es (tick_port_reservation now a s)
      (tick-IsWell now a s.state s.unsupported_since s.consecutive_acquire_failures w)
run-IsWell (stopped ∷ es) s w =
    run-IsWell es (stop_port_reservation s)
      (stop-IsWell s.state s.unsupported_since s.consecutive_acquire_failures w)
