-- ===== src/Ports/Store.antt =====
-- The listener ports of the stored documents, and requests for any port
-- (src/services/listener-ports.ts).
use open_live.Prelude.{
  ℕ, ◌≤◌, ◌<◌, Bool, true, false, not, List, [], ◌∷◌, Option, none, some, if◌then◌else◌, nat_beq,
  nat_eq, map, ◌≡◌, refl, ◌∙◌, ap, arith, Bool-cases, inl, inr, sym, subst, get_or, ◌||◌, ◌++◌,
  length, ◌==◌,
}
use open_live.Prelude.Dict.{has, Distinct}
use open_live.Ports.{PortReservation, PortReservationState, reserved}
use open_live.Ports.Listener.{
  Kind, source, output, same_kind, of_kind, uses_of, Address, listener_port_request,
  with_listener_port, ListenerPortUse, StoredAddress, port_use, use_at, used_listener_ports,
  lowest_free_port, accepted, ResolveOptions, may_keep, give, assign, taken_ports, resolve_request,
  resolve_listener_address, is_excluded,
}
use open_live.Ports.Resolve.{IsLeast, lowest_free_port-IsLeast}
use open_live.Ports.Booking.{InRange, Allowed, resolve-Allowed}

-- The ports that the stored documents bind.
abbrev pub bound_ports : List StoredAddress → List ℕ
bound_ports docs = map (λ u. u.port) (uses_of docs)

port_of : Option ListenerPortUse → Option ℕ
port_of none = none
port_of (some u) = some u.port

use_at-port :
    (b : Bool) (o : Option ℕ) (d : StoredAddress) (u : ListenerPortUse)
    → use_at b o d ≡ some u
    → o ≡ some u.port
unfolding use_at port_of
use_at-port false o d u e = absurd (ground (arith, e))
use_at-port true none d u e = absurd (ground (arith, e))
use_at-port true (some p) d u e = elim (Bool-cases (nat_beq p 0)) [
  | inl h ↦ absurd (let bad : none ≡ some u = rw h at e in ground (arith, bad))
  | inr h ↦ ap port_of (rw h at e)
]

port_use-port :
    (d : StoredAddress) (u : ListenerPortUse)
    → port_use d ≡ some u
    → listener_port_request d.address ≡ some u.port
unfolding port_use
port_use-port d u e = use_at-port d.binds (listener_port_request d.address) d u e

not_excluded : (used : List ListenerPortUse) → taken_ports none used ≡ map (λ u. u.port) used
unfolding taken_ports is_excluded
not_excluded [] = refl
not_excluded (u ∷ used) = ap (λ l. u.port ∷ l) (not_excluded used)

cons-Distinct :
    (o : Option ListenerPortUse) (used : List ListenerPortUse)
    → ((u : ListenerPortUse) → o ≡ some u → has (map (λ v. v.port) used) u.port ≡ false)
    → Distinct (map (λ v. v.port) used)
    → Distinct (map (λ v. v.port) (elim o [ none ↦ used | some u ↦ u ∷ used ]))
cons-Distinct none used new d = d
cons-Distinct (some u) used new d = (new u refl, d)

Allowed-new :
    (reservation : PortReservationState) (taken : List ℕ) (a : Address) (o : Option ℕ) (p : ℕ)
    → Allowed reservation taken (accepted a o)
    → listener_port_request a ≡ some p
    → has taken p ≡ false
unfolding Allowed
Allowed-new reservation taken a none p e h = absurd (ground (arith, e, h))
Allowed-new reservation taken a (some q) p (e, held, free) h =
    subst (λ x. has taken x ≡ false) (ap (λ o. get_or o q) (sym e ∙ h)) free

ports-append :
    (xs ys : List ListenerPortUse) (p : ℕ)
    → has (map (λ u. u.port) (xs ++ ys)) p
      ≡ (has (map (λ u. u.port) xs) p || has (map (λ u. u.port) ys) p)
unfolding has
ports-append [] ys p = refl
ports-append (u ∷ xs) ys p = ground (arith, ports-append xs ys p)

abbrev binds_port : Option ListenerPortUse → ℕ → Bool
binds_port none p = false
binds_port (some u) p = u.port == p

bound_ports-cons :
    (o : Option ListenerPortUse) (used : List ListenerPortUse) (p : ℕ)
    → has (map (λ v. v.port) (elim o [ none ↦ used | some u ↦ u ∷ used ])) p
      ≡ (binds_port o p || has (map (λ v. v.port) used) p)
unfolding has
bound_ports-cons none used p = refl
bound_ports-cons (some u) used p = refl

or_left : (b x n s o c : Bool) → b ≡ (x || n) → n ≡ (s || o) → c ≡ (x || s) → b ≡ (c || o)
or_left b x n s o c e f g = e ∙ ap (λ y. x || y) f ∙ ground (arith, g)

or_right : (b x n s o c : Bool) → b ≡ (x || n) → n ≡ (s || o) → c ≡ (x || o) → b ≡ (s || c)
or_right b x n s o c e f g = e ∙ ap (λ y. x || y) f ∙ ground (arith, g)

-- A document goes with those of its kind.
kinds-cons :
    (k : Kind) (d : StoredAddress) (docs sources outputs : List StoredAddress) (p : ℕ)
    → has (bound_ports docs) p ≡ (has (bound_ports sources) p || has (bound_ports outputs) p)
    → has (bound_ports (d ∷ docs)) p ≡ (
        has (bound_ports (if same_kind k source then d ∷ sources else sources)) p
        || has (bound_ports (if same_kind k output then d ∷ outputs else outputs)) p)
unfolding uses_of
kinds-cons source d docs sources outputs p e =
    or_left _ (binds_port (port_use d) p) _ _ _ _ (bound_ports-cons (port_use d) (uses_of docs) p) e
      (bound_ports-cons (port_use d) (uses_of sources) p)
kinds-cons output d docs sources outputs p e =
    or_right _ (binds_port (port_use d) p) _ _ _ _ (bound_ports-cons (port_use d) (uses_of docs) p)
      e (bound_ports-cons (port_use d) (uses_of outputs) p)

-- Every document is a source or an output.
bound_ports-kinds :
    (docs : List StoredAddress) (p : ℕ)
    → has (bound_ports docs) p
      ≡ (has (bound_ports (of_kind source docs)) p || has (bound_ports (of_kind output docs)) p)
unfolding has uses_of
bound_ports-kinds [] p = refl
bound_ports-kinds (d ∷ docs) p =
    kinds-cons d.kind d docs (of_kind source docs) (of_kind output docs) p
      (bound_ports-kinds docs p)

-- What the two queries find binds the same ports as what is stored.
found-bound_ports :
    (find : List StoredAddress → List StoredAddress) (docs : List StoredAddress) (p : ℕ)
    → ((found : List StoredAddress) → length found ≤ 25 → find found ≡ found)
    → length (of_kind source docs) ≤ 25
    → length (of_kind output docs) ≤ 25
    → has (map (λ u. u.port) (used_listener_ports find docs)) p ≡ has (bound_ports docs) p
unfolding used_listener_ports
found-bound_ports find docs p whole sources outputs =
    ports-append (uses_of (find (of_kind source docs))) (uses_of (find (of_kind output docs))) p
    ∙ ap (λ l. has (bound_ports l) p || has (bound_ports (find (of_kind output docs))) p)
        (whole (of_kind source docs) sources)
    ∙ ap (λ l. has (bound_ports (of_kind source docs)) p || has (bound_ports l) p)
        (whole (of_kind output docs) outputs)
    ∙ sym (bound_ports-kinds docs p)

-- Where a query without a limit returns all documents of a type while they are at most 25, and no
-- more sources or outputs than that are stored, storing a new source or output under the address
-- that was accepted for it keeps the listener ports of all stored documents distinct, if the ports
-- of the reservation are at most 65535.
pub store-Distinct :
    (find : List StoredAddress → List StoredAddress) (d : StoredAddress) (docs : List StoredAddress)
    (reservation : PortReservationState) (keep_port : Option ℕ) (a : Address) (port : Option ℕ)
    → ((found : List StoredAddress) → length found ≤ 25 → find found ≡ found)
    → length (of_kind source docs) ≤ 25
    → length (of_kind output docs) ≤ 25
    → InRange reservation
    → Distinct (bound_ports docs)
    → resolve_listener_address d.address reservation
        (used_listener_ports find docs)
        (record { exclude = none; keep_port = keep_port })
      ≡ accepted a port
    → Distinct (bound_ports (record d { address = a } ∷ docs))
unfolding used_listener_ports uses_of
store-Distinct find d docs reservation keep_port a port whole sources outputs range distinct e =
    let opts : ResolveOptions = record { exclude = none; keep_port = keep_port } in
    let used = used_listener_ports find docs in
    let safe =
      subst (Allowed reservation (taken_ports none used)) e
        (resolve-Allowed d.address reservation used opts range) in
    cons-Distinct (port_use (record d { address = a })) (uses_of docs)
      (λ u h.
        sym (found-bound_ports find docs u.port whole sources outputs)
        ∙ subst (λ l. has l u.port ≡ false) (not_excluded used)
            (Allowed-new reservation (taken_ports none used) a port u.port safe
              (port_use-port (record d { address = a }) u h)))
      distinct

given_lowest :
    (address : Address) (held taken : List ℕ) (q : ℕ) (o : Option ℕ)
    → has held q ≡ true
    → has taken q ≡ false
    → IsLeast (λ p. not (has taken p)) held o
    → (p : ℕ) × (give address o ≡ accepted (with_listener_port address p) (some p)) × (p ≤ q)
unfolding IsLeast
given_lowest address held taken q none on free w = absurd (ground (arith, w q on, free))
given_lowest address held taken q (some p) on free (held_p, free_p, least) =
    (p, refl, least q on (ground (arith, free)))

-- A document that asks for any port keeps the one that it has, which is above 0, while the instance
-- holds that one and no other document binds it.
pub resolve-keeps :
    (address : Address) (r : PortReservation) (used : List ListenerPortUse) (opts : ResolveOptions)
    (port : ℕ)
    → listener_port_request address ≡ some 0
    → opts.keep_port ≡ some port
    → 0 < port
    → has r.ports port ≡ true
    → has (taken_ports opts.exclude used) port ≡ false
    → resolve_listener_address address (reserved r) used opts
      ≡ accepted (with_listener_port address port) (some port)
unfolding resolve_listener_address resolve_request assign may_keep
resolve-keeps address r used opts port e kept positive on free =
    let taken = taken_ports opts.exclude used in
    let allowed : may_keep (some port) r.ports taken ≡ true = ground (arith, positive, on, free) in
    ap (λ o. resolve_request o address (reserved r) used opts) e
    ∙ ap
        (λ o. give address (if may_keep o r.ports taken then o else lowest_free_port r.ports taken))
        kept
    ∙ ap (λ b. give address (if b then some port else lowest_free_port r.ports taken)) allowed

-- A document that asks for any port, and has none that it may keep, is accepted where a held port is
-- free, with a port no higher than that one.
pub resolve-assigns :
    (address : Address) (r : PortReservation) (used : List ListenerPortUse) (opts : ResolveOptions)
    (q : ℕ)
    → listener_port_request address ≡ some 0
    → may_keep opts.keep_port r.ports (taken_ports opts.exclude used) ≡ false
    → has r.ports q ≡ true
    → has (taken_ports opts.exclude used) q ≡ false
    → (p : ℕ) × (resolve_listener_address address (reserved r) used opts
        ≡ accepted (with_listener_port address p) (some p))
      × (p ≤ q)
unfolding resolve_listener_address resolve_request assign
resolve-assigns address r used opts q e fresh on free =
    let taken = taken_ports opts.exclude used in
    let (p, given, le) =
      given_lowest address r.ports taken q (lowest_free_port r.ports taken) on free
        (lowest_free_port-IsLeast r.ports taken) in
    let path =
      ap (λ o. resolve_request o address (reserved r) used opts) e
      ∙ ap (λ b. give address (if b then opts.keep_port else lowest_free_port r.ports taken)) fresh
      ∙ given in
    (p, path, le)
