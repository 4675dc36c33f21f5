-- ===== src/Ports/Booking.antt =====
-- Storing what `resolveListenerAddress` of src/services/listener-ports.ts accepts.
use open_live.Prelude.{
  ℕ, ◌≤◌, true, false, not, List, Option, none, some, if◌then◌else◌, nat_beq, nat_eq, string_eq,
  ◌≡◌, refl, arith, if-holds, Bool-cases, inl, inr, All, ◌≢◌, String, [], ◌∷◌, sym, ap, ◌∙◌,
}
use open_live.Prelude.Dict.{has}
use open_live.Ports.{
  PortReservation, PortReservationState, reserved, pending, unsupported, disabled,
}
use open_live.Ports.Listener.{
  Kind, source, output, same_kind, is_doc, is_excluded, Address, hostless, other,
  listener_port_request, with_listener_port, ListenerPortUse, lowest_free_port, Resolution,
  accepted, refused, ResolveOptions, may_keep, give, assign, unless_taken, check, taken_ports,
  resolve_request, resolve_listener_address,
}
use open_live.Ports.Resolve.{IsLeast, lowest_free_port-IsLeast}

-- The ports of a reservation are ports.
unfoldable pub InRange : PortReservationState → Type 0
InRange (reserved r) = (p : ℕ) → has r.ports p ≡ true → p ≤ 65535
InRange pending = Unit
InRange unsupported = Unit
InRange disabled = Unit

-- Where ports are held, only these are let through.
unfoldable pub Holds : PortReservationState → ℕ → Type 0
Holds (reserved r) p = has r.ports p ≡ true
Holds pending p = Unit
Holds unsupported p = Unit
Holds disabled p = Unit

-- What the code checks of an accepted address.
unfoldable pub Allowed : PortReservationState → List ℕ → Resolution → Type 0
Allowed reservation taken (refused code) = Unit
Allowed reservation taken (accepted address none) = listener_port_request address ≡ none
Allowed reservation taken (accepted address (some p)) =
    (listener_port_request address ≡ some p) × Holds reservation p × (has taken p ≡ false)

request-with_port :
    (address : Address) (q p : ℕ)
    → listener_port_request address ≡ some q
    → p ≤ 65535
    → listener_port_request (with_listener_port address p) ≡ some p
unfolding listener_port_request with_listener_port
request-with_port (other text) q p e le = absurd (ground (arith, e))
request-with_port (hostless old none rest) q p e le = ground (arith, e, le)
request-with_port (hostless old (some mode) rest) q p e le = ground (arith, e, le)

-- A port that is held and not taken, if there is one.
Free : List ℕ → List ℕ → Option ℕ → Type 0
Free held taken none = Unit {0}
Free held taken (some p) = (has held p ≡ true) × (has taken p ≡ false)

kept-Free :
    (keep_port : Option ℕ) (held taken : List ℕ)
    → may_keep keep_port held taken ≡ true
    → Free held taken keep_port
unfolding may_keep Free
kept-Free none held taken e = tt
kept-Free (some p) held taken e = ground (arith, e)

lowest-Free :
    (held taken : List ℕ) (o : Option ℕ)
    → IsLeast (λ p. not (has taken p)) held o
    → Free held taken o
unfolding IsLeast Free
lowest-Free held taken none w = tt
lowest-Free held taken (some p) (on, free, least) = (on, ground (arith, free))

-- The port that an assignment picks.
picked-Free :
    (keep_port : Option ℕ) (held taken : List ℕ)
    → Free held taken
        (if may_keep keep_port held taken then keep_port else lowest_free_port held taken)
picked-Free keep_port held taken = elim (Bool-cases (may_keep keep_port held taken)) [
  | inl e ↦ rw e (kept-Free keep_port held taken e)
  | inr e ↦
      rw e
        (lowest-Free held taken (lowest_free_port held taken) (lowest_free_port-IsLeast held taken))
]

give-Allowed :
    (r : PortReservation) (address : Address) (q : ℕ) (taken : List ℕ) (o : Option ℕ)
    → InRange (reserved r)
    → listener_port_request address ≡ some q
    → Free r.ports taken o
    → Allowed (reserved r) taken (give address o)
unfolding Allowed Free InRange Holds
give-Allowed r address q taken none range e w = tt
give-Allowed r address q taken (some p) range e (held, free) =
    (request-with_port address q p e (range p held), held, free)

unless_taken-Allowed :
    (reservation : PortReservationState) (address : Address) (q : ℕ) (taken : List ℕ)
    → listener_port_request address ≡ some q
    → Holds reservation q
    → Allowed reservation taken (unless_taken address q taken)
unfolding Allowed
unless_taken-Allowed reservation address q taken e held = elim (Bool-cases (has taken q)) [
  | inl h ↦ rw h tt
  | inr h ↦ rw h (e, held, h)
]

module _ (address : Address) (q : ℕ) (e : listener_port_request address ≡ some q) where
  assign-Allowed :
      (reservation : PortReservationState) (keep_port : Option ℕ) (taken : List ℕ)
      → InRange reservation
      → Allowed reservation taken (assign address reservation keep_port taken)
  unfolding Allowed assign
  assign-Allowed (reserved r) keep_port taken range =
      give-Allowed r address q taken _ range e (picked-Free keep_port r.ports taken)
  assign-Allowed pending keep_port taken range = tt
  assign-Allowed unsupported keep_port taken range = tt
  assign-Allowed disabled keep_port taken range = tt

  check-Allowed :
      (reservation : PortReservationState) (taken : List ℕ)
      → Allowed reservation taken (check address reservation q taken)
  unfolding Allowed check Holds
  check-Allowed (reserved r) taken = elim (Bool-cases (has r.ports q)) [
    | inl h ↦ rw h (unless_taken-Allowed (reserved r) address q taken e h)
    | inr h ↦ rw h tt
  ]
  check-Allowed pending taken = tt
  check-Allowed unsupported taken = unless_taken-Allowed unsupported address q taken e tt
  check-Allowed disabled taken = unless_taken-Allowed disabled address q taken e tt

request-Allowed :
    (o : Option ℕ) (address : Address) (reservation : PortReservationState)
    (used : List ListenerPortUse) (opts : ResolveOptions)
    → InRange reservation
    → listener_port_request address ≡ o
    → Allowed reservation
        (taken_ports opts.exclude used)
        (resolve_request o address reservation used opts)
unfolding Allowed resolve_request
request-Allowed none address reservation used opts range e = e
request-Allowed (some q) address reservation used opts range e =
    if-holds (Allowed reservation (taken_ports opts.exclude used)) (nat_beq q 0)
      (assign-Allowed address q e reservation opts.keep_port (taken_ports opts.exclude used) range)
      (check-Allowed address q e reservation (taken_ports opts.exclude used))

pub resolve-Allowed :
    (address : Address) (reservation : PortReservationState) (used : List ListenerPortUse)
    (opts : ResolveOptions)
    → InRange reservation
    → Allowed reservation
        (taken_ports opts.exclude used)
        (resolve_listener_address address reservation used opts)
unfolding resolve_listener_address
resolve-Allowed address reservation used opts range =
    request-Allowed (listener_port_request address) address reservation used opts range refl

-- None of the uses binds the port, but those of the excluded document.
abbrev pub Unbound : Option (Kind × String) → List ListenerPortUse → ℕ → Type 0
Unbound exclude used p = All (λ u. exclude ≢ some (u.kind, u.id) → u.port ≢ p) used

-- What an accepted address promises: it asks for the port that is reported, which is held, and which
-- no other document binds.
unfoldable pub Safe :
    PortReservationState → Option (Kind × String) → List ListenerPortUse → Resolution → Type 0
Safe reservation exclude used (refused code) = Unit
Safe reservation exclude used (accepted address none) = listener_port_request address ≡ none
Safe reservation exclude used (accepted address (some p)) =
    (listener_port_request address ≡ some p) × Holds reservation p × Unbound exclude used p

same_kind-eq : (a b : Kind) → same_kind a b ≡ true → a ≡ b
same_kind-eq source source h = refl
same_kind-eq output output h = refl
same_kind-eq source output h = absurd (ground (arith, h))
same_kind-eq output source h = absurd (ground (arith, h))

is_excluded-own :
    (exclude : Option (Kind × String)) (u : ListenerPortUse)
    → is_excluded exclude u ≡ true
    → exclude ≡ some (u.kind, u.id)
unfolding is_excluded is_doc
is_excluded-own none u h = absurd (ground (arith, h))
is_excluded-own (some (kind, id)) u h =
    let kinds = same_kind-eq u.kind kind (ground (arith, h)) in
    let ids = (string_eq.beq_iff u.id id).0 (ground (arith, h)) in
    ap (λ k. some (k, id)) (sym kinds) ∙ ap (λ i. some (u.kind, i)) (sym ids)

taken_ports-Unbound :
    (exclude : Option (Kind × String)) (used : List ListenerPortUse) (p : ℕ)
    → has (taken_ports exclude used) p ≡ false
    → Unbound exclude used p
unfolding taken_ports has
taken_ports-Unbound exclude [] p h = tt
taken_ports-Unbound exclude (u ∷ used) p h = elim (Bool-cases (is_excluded exclude u)) [
  | inl e ↦ (
    λ other. absurd (other (is_excluded-own exclude u e)),
    taken_ports-Unbound exclude used p (ground (arith, h, e)),
  )
  | inr e ↦ (
    λ other same. ground (arith, h, e, nat_eq.beq_iff u.port p, same),
    taken_ports-Unbound exclude used p (ground (arith, h, e)),
  )
]

Allowed-Safe :
    (reservation : PortReservationState) (exclude : Option (Kind × String))
    (used : List ListenerPortUse) (r : Resolution)
    → Allowed reservation (taken_ports exclude used) r
    → Safe reservation exclude used r
unfolding Allowed Safe
Allowed-Safe reservation exclude used (refused code) w = tt
Allowed-Safe reservation exclude used (accepted address none) w = w
Allowed-Safe reservation exclude used (accepted address (some p)) (e, held, free) =
    (e, held, taken_ports-Unbound exclude used p free)

-- Where the ports of a reservation are at most 65535, an address is accepted with a port only if it
-- asks for that very port, the instance holds it where it holds any, and none of the given port uses
-- binds it but those of the document that is being edited; an address that is accepted without a
-- port binds none.
pub resolve-Safe :
    (address : Address) (reservation : PortReservationState) (used : List ListenerPortUse)
    (opts : ResolveOptions)
    → InRange reservation
    → Safe reservation opts.exclude used (resolve_listener_address address reservation used opts)
resolve-Safe address reservation used opts range =
    Allowed-Safe reservation opts.exclude used
      (resolve_listener_address address reservation used opts)
      (resolve-Allowed address reservation used opts range)
