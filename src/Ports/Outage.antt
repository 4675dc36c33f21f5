-- ===== src/Ports/Outage.antt =====
-- Outages, as src/services/port-reservation.ts answers them: ports that are held stay held, and a
-- service that holds none stops blocking writes.
use open_live.Prelude.{
  ℕ, ◌+◌, ◌≤◌, ◌<◌, Bool, true, false, ◌||◌, List, [], ◌∷◌, Option, if◌then◌else◌, leb, ◌≡◌, refl,
  ◌∙◌, arith, ap, subst, sym, Bool-cases, inl, inr, All, length, if-holds, ◌≢◌,
}
use open_live.Ports.{
  PortReservation, PortReservationState, reserved, pending, unsupported, disabled, Service, Reply,
  granted, not_found, conflict, unavailable, failed, no_client, is_unsupported,
  fall_back_to_unsupported, inconclusive, acquire, Answers, renew, renew_answered, tick_from, waits,
  tick_port_reservation, stop_port_reservation, stop_from, pool_is_unconfigured,
  max_acquire_failures,
}
use open_live.Ports.Machine.{Event, ticked, stopped, apply, run}

-- A tick whose errors prove nothing about the pool.
unfoldable pub proves_nothing : Reply → Option Bool → Bool
proves_nothing failed pool = true
proves_nothing no_client pool = true
proves_nothing unavailable pool = if pool_is_unconfigured pool then false else true
proves_nothing (granted r) pool = false
proves_nothing not_found pool = false
proves_nothing conflict pool = false

abbrev pub ticks : List (ℕ × Answers) → List Event
ticks [] = []
ticks ((now, a) ∷ rest) = ticked now a ∷ ticks rest

abbrev pub Outage : List (ℕ × Answers) → Type 0
Outage = All (λ t. proves_nothing t.1.reply t.1.pool ≡ true)

renew_answered-Outage :
    (r : Reply) (now : ℕ) (a : Answers) (s : Service)
    → proves_nothing r a.pool ≡ true
    → renew_answered r now a s ≡ s
unfolding renew_answered proves_nothing
renew_answered-Outage (granted r) now a s h = absurd (ground (arith, h))
renew_answered-Outage not_found now a s h = absurd (ground (arith, h))
renew_answered-Outage conflict now a s h = refl
renew_answered-Outage unavailable now a s h = ground (arith, h)
renew_answered-Outage failed now a s h = refl
renew_answered-Outage no_client now a s h = refl

-- However long Strom cannot be reached, an instance keeps the reservation that it holds.
pub Outage-keeps :
    (ts : List (ℕ × Answers)) (s : Service) (r : PortReservation)
    → Outage ts
    → s.state ≡ reserved r
    → run (ticks ts) s ≡ s
unfolding run apply tick_port_reservation tick_from renew
Outage-keeps [] s r o held = refl
Outage-keeps ((now, a) ∷ ts) s r (h, o) held =
    let step : tick_port_reservation now a s ≡ s =
      ap (λ state. tick_from state now a s) held ∙ renew_answered-Outage a.reply now a s h in
    ap (run (ticks ts)) step ∙ Outage-keeps ts s r o held

acquire-Outage :
    (r : Reply) (pool : Option Bool) (now : ℕ) (s : Service)
    → proves_nothing r pool ≡ true
    → acquire now r pool s ≡ inconclusive now s
unfolding acquire proves_nothing
acquire-Outage (granted r) pool now s h = absurd (ground (arith, h))
acquire-Outage not_found pool now s h = absurd (ground (arith, h))
acquire-Outage conflict pool now s h = absurd (ground (arith, h))
acquire-Outage unavailable pool now s h = ground (arith, h)
acquire-Outage failed pool now s h = refl
acquire-Outage no_client pool now s h = refl

inconclusive-fallen :
    (now : ℕ) (s : Service) → s.state ≡ unsupported → (inconclusive now s).state ≡ unsupported
unfolding inconclusive fall_back_to_unsupported
inconclusive-fallen now s fallen =
    let known : is_unsupported s.state ≡ true = ap is_unsupported fallen in rw known refl

-- The service after one more failure of a pending one.
one_more : Service → Service
one_more s = record s {
  state = pending;
  consecutive_acquire_failures = s.consecutive_acquire_failures + 1;
}

inconclusive-pending :
    (now : ℕ) (s : Service)
    → s.state ≡ pending
    → inconclusive now s ≡ (
        if leb max_acquire_failures (s.consecutive_acquire_failures + 1)
        then fall_back_to_unsupported now
        else one_more s)
unfolding inconclusive one_more
inconclusive-pending now s waiting =
    let known : is_unsupported s.state ≡ false = ap is_unsupported waiting in
    ap
      (λ b.
        if b || leb max_acquire_failures (s.consecutive_acquire_failures + 1)
        then fall_back_to_unsupported now
        else one_more s)
      known

-- A service that has fallen back stays so.
fallen-stays :
    (ts : List (ℕ × Answers)) (s : Service)
    → Outage ts
    → s.state ≡ unsupported
    → (run (ticks ts) s).state ≡ unsupported
unfolding run apply tick_port_reservation tick_from inconclusive fall_back_to_unsupported
fallen-stays [] s o fallen = fallen
fallen-stays ((now, a) ∷ ts) s (h, o) fallen =
    let step : tick_port_reservation now a s
        ≡ (if waits now s.unsupported_since then s else inconclusive now s) =
      ap (λ state. tick_from state now a s) fallen
      ∙ ap (λ t. if waits now s.unsupported_since then s else t)
          (acquire-Outage a.reply a.pool now s h) in
    fallen-stays ts (tick_port_reservation now a s) o (
      ap (λ t. t.state) step
      ∙ if-holds {A = Service} (λ t. t.state ≡ unsupported) (waits now s.unsupported_since) fallen
          (inconclusive-fallen now s fallen))

-- Writes are blocked for a bounded time: a pending service has fallen back once the ticks of an
-- outage, at least one, and the failures counted before come to the limit.
pub Outage-falls_back :
    (ts : List (ℕ × Answers)) (s : Service)
    → Outage ts
    → s.state ≡ pending
    → 0 < length ts
    → max_acquire_failures ≤ s.consecutive_acquire_failures + length ts
    → (run (ticks ts) s).state ≡ unsupported
unfolding run apply tick_port_reservation tick_from fall_back_to_unsupported one_more
Outage-falls_back [] s o waiting some_tick many = absurd (omega (arith, some_tick))
Outage-falls_back ((now, a) ∷ ts) s (h, o) waiting some_tick many =
    let n = s.consecutive_acquire_failures in
    let step =
      ap (λ state. tick_from state now a s) waiting
      ∙ acquire-Outage a.reply a.pool now s h
      ∙ inconclusive-pending now s waiting in
    subst (λ t. (run (ticks ts) t).state ≡ unsupported) (sym step)
      (elim (Bool-cases (leb max_acquire_failures (n + 1))) [
        | inl e ↦ rw e (fallen-stays ts (fall_back_to_unsupported now) o refl)
        | inr e ↦ rw e (
            Outage-falls_back ts (one_more s) o refl (ground (arith, many, e))
              (omega (arith, many)))
      ])

tick_from-granted :
    (state : PortReservationState) (now : ℕ) (a : Answers) (s : Service) (r : PortReservation)
    → a.reply ≡ granted r
    → state ≢ disabled
    → waits now s.unsupported_since ≡ false
    → (tick_from state now a s).state ≡ reserved r
unfolding tick_from renew renew_answered acquire
tick_from-granted disabled now a s r e on due = absurd (on refl)
tick_from-granted (reserved held) now a s r e on due = ap (λ q. (renew_answered q now a s).state) e
tick_from-granted pending now a s r e on due = ap (λ q. (acquire now q a.pool s).state) e
tick_from-granted unsupported now a s r e on due =
    ap (λ b. (if b then s else acquire now a.reply a.pool s).state) due
    ∙ ap (λ q. (acquire now q a.pool s).state) e

-- When Strom grants ports again, one tick takes them, from any state but a switched-off one; a
-- service that has fallen back does so once its retry time has passed.
pub tick-recovers :
    (now : ℕ) (a : Answers) (s : Service) (r : PortReservation)
    → a.reply ≡ granted r
    → s.state ≢ disabled
    → waits now s.unsupported_since ≡ false
    → (tick_port_reservation now a s).state ≡ reserved r
unfolding tick_port_reservation
tick-recovers now a s r e on due = tick_from-granted s.state now a s r e on due

-- A switched-off service never leaves its state, whatever Strom answers and however often it is
-- stopped.
pub off-stays : (es : List Event) (s : Service) → s.state ≡ disabled → run es s ≡ s
unfolding run apply tick_port_reservation tick_from stop_port_reservation stop_from
off-stays [] s off = refl
off-stays (ticked now a ∷ es) s off =
    ap (run es) (ap (λ state. tick_from state now a s) off) ∙ off-stays es s off
off-stays (stopped ∷ es) s off =
    ap (run es) (ap (λ state. stop_from state s) off) ∙ off-stays es s off
