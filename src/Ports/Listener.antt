-- ===== src/Ports/Listener.antt =====
-- src/services/listener-ports.ts: the port of a listener address, and the choice of a free one.
use open_live.Prelude.{
  ℕ, String, Bool, true, false, not, ◌&&◌, ◌||◌, List, [], ◌∷◌, ◌++◌, Option, none, some,
  if◌then◌else◌, ltb, leb, nat_beq, nat_eq, string_eq, ◌==◌, map, keep, find,
}
use open_live.Prelude.Dict.{has}
use open_live.Ports.{PortReservationState, reserved, pending, unsupported, disabled}

-- An address as the regular expression of `listenerPortRequest` takes it apart: hostless, with the
-- port, the lower-cased `mode` of the query and what else follows the port, or any other address.
pub data Address : Type 0 where
  hostless : ℕ → Option String → String → Address
  other : String → Address

abbrev pub assign_port : ℕ
assign_port = 0

unfoldable pub listener_port_request : Address → Option ℕ
listener_port_request (other text) = none
listener_port_request (hostless port none rest) = if ltb 65535 port then none else some port
listener_port_request (hostless port (some mode) rest) =
    if ltb 65535 port then none else if mode == "listener" then some port else none

-- `parseListenerPort` of src/services/port-reservation.ts, which takes no port 0.
unfoldable pub parse_listener_port : Address → Option ℕ
parse_listener_port (other text) = none
parse_listener_port (hostless port none rest) =
    if ltb port 1 || ltb 65535 port then none else some port
parse_listener_port (hostless port (some mode) rest) =
    if ltb port 1 || ltb 65535 port then none else if mode == "listener" then some port else none

unfoldable pub with_listener_port : Address → ℕ → Address
with_listener_port (other text) port = other text
with_listener_port (hostless old mode rest) port = hostless port mode rest

pub data Kind : Type 0 where
  source output : Kind

abbrev pub same_kind : Kind → Kind → Bool
same_kind source source = true
same_kind output output = true
same_kind _ _ = false

pub record ListenerPortUse : Type 0 where
  pub kind : Kind
  pub id : String
  pub name : String
  pub port : ℕ

unfoldable pub is_doc : Kind → String → ListenerPortUse → Bool
is_doc kind id u = same_kind u.kind kind && u.id == id

-- One document of the loops of `usedListenerPorts`; `binds` is the test of its type.
pub record StoredAddress : Type 0 where
  pub kind : Kind
  pub id : String
  pub name : String
  pub binds : Bool
  pub address : Address

-- By that test and by what the address asks for.
unfoldable pub use_at : Bool → Option ℕ → StoredAddress → Option ListenerPortUse
use_at false request d = none
use_at true none d = none
use_at true (some port) d =
    if nat_beq port 0
    then none
    else some (record { kind = d.kind; id = d.id; name = d.name; port = port })

unfoldable pub port_use : StoredAddress → Option ListenerPortUse
unfolding use_at
port_use d = use_at d.binds (listener_port_request d.address) d

-- Both loops, over the documents that a query found.
unfoldable pub uses_of : List StoredAddress → List ListenerPortUse
unfolding port_use
uses_of [] = []
uses_of (d ∷ docs) =
    let rest = uses_of docs in elim (port_use d) [ none ↦ rest | some u ↦ u ∷ rest ]

abbrev pub of_kind : Kind → List StoredAddress → List StoredAddress
of_kind kind docs = keep (λ d. same_kind d.kind kind) docs

-- `find` is a query without a limit: what it returns of the documents that match.
unfoldable pub used_listener_ports :
    (List StoredAddress → List StoredAddress) → List StoredAddress → List ListenerPortUse
unfolding uses_of
used_listener_ports find docs =
    uses_of (find (of_kind source docs)) ++ uses_of (find (of_kind output docs))

-- `sort((a, b) => a - b)`
unfoldable pub insert_sorted : ℕ → List ℕ → List ℕ
insert_sorted p [] = p ∷ []
insert_sorted p (q ∷ qs) = if leb p q then p ∷ q ∷ qs else q ∷ insert_sorted p qs

unfoldable pub sorted : List ℕ → List ℕ
unfolding insert_sorted
sorted [] = []
sorted (p ∷ ps) = insert_sorted p (sorted ps)

unfoldable pub lowest_free_port : List ℕ → List ℕ → Option ℕ
unfolding sorted
lowest_free_port held taken = find (λ p. not (has taken p)) (sorted held)

unfoldable pub clashes_after_write :
    List ListenerPortUse → Kind → String → ℕ → Option ListenerPortUse
unfolding is_doc
clashes_after_write used kind id port =
    find (λ u. nat_beq u.port port && not (is_doc kind id u)) used

pub data Resolution : Type 0 where
  accepted : Address → Option ℕ → Resolution
  refused : ℕ → Resolution

-- `exclude` and `keep` of the options.
pub record ResolveOptions : Type 0 where
  pub exclude : Option (Kind × String)
  pub keep_port : Option ℕ

unfoldable pub is_excluded : Option (Kind × String) → ListenerPortUse → Bool
unfolding is_doc
is_excluded none u = false
is_excluded (some (kind, id)) u = is_doc kind id u

-- `opts.keep && isPortReserved(opts.keep, reserved) && !taken.has(opts.keep)`
unfoldable pub may_keep : Option ℕ → List ℕ → List ℕ → Bool
may_keep none held taken = false
may_keep (some port) held taken = ltb 0 port && has held port && not (has taken port)

abbrev pub give : Address → Option ℕ → Resolution
give address none = refused 409
give address (some port) = accepted (with_listener_port address port) (some port)

-- A request for any port, with the ports that are held if some are.
unfoldable pub assign : Address → PortReservationState → Option ℕ → List ℕ → Resolution
unfolding lowest_free_port may_keep with_listener_port
assign address pending keep_port taken = refused 503
assign address unsupported keep_port taken = refused 400
assign address disabled keep_port taken = refused 400
assign address (reserved r) keep_port taken =
    give address
      (if may_keep keep_port r.ports taken then keep_port else lowest_free_port r.ports taken)

abbrev pub unless_taken : Address → ℕ → List ℕ → Resolution
unless_taken address port taken =
    if has taken port then refused 409 else accepted address (some port)

-- A request for one port.
unfoldable pub check : Address → PortReservationState → ℕ → List ℕ → Resolution
check address pending port taken = refused 503
check address unsupported port taken = unless_taken address port taken
check address disabled port taken = unless_taken address port taken
check address (reserved r) port taken =
    if not (has r.ports port) then refused 422 else unless_taken address port taken

unfoldable pub taken_ports : Option (Kind × String) → List ListenerPortUse → List ℕ
unfolding is_excluded
taken_ports exclude used = map (λ u. u.port) (keep (λ u. not (is_excluded exclude u)) used)

-- By the port that the address asks for. The texts of the errors are left out.
unfoldable pub resolve_request :
    Option ℕ → Address → PortReservationState → List ListenerPortUse → ResolveOptions → Resolution
unfolding assign check taken_ports
resolve_request none address reservation used opts = accepted address none
resolve_request (some requested) address reservation used opts =
    let taken = taken_ports opts.exclude used in
    if nat_beq requested assign_port
    then assign address reservation opts.keep_port taken
    else check address reservation requested taken

unfoldable pub resolve_listener_address :
    Address → PortReservationState → List ListenerPortUse → ResolveOptions → Resolution
unfolding resolve_request listener_port_request
resolve_listener_address address reservation used opts =
    resolve_request (listener_port_request address) address reservation used opts
