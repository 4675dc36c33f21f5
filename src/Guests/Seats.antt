-- ===== src/Guests/Seats.antt =====
-- What a reconnecting studio is told of the guest seats (src/services/guest-health.ts).
use open_live.Prelude.{
  String, Bool, true, false, List, [], ◌∷◌, Option, none, some, get_or, or_kept, if◌then◌else◌, map,
  All, ◌==◌, string_eq, ◌≡◌, refl, ◌∙◌, ap, arith, Bool-cases, inl, inr,
}
use open_live.Prelude.Dict.{lookup, insert, lookup-insert}
use open_live.Guests.{
  HealthStatus, ok, failed, newer, BlockHealthReport, GuestHealthMessage, message_for,
  guest_health_message, by_block, healthy_report, snapshot_of, guest_health_snapshot,
}

abbrev pub is_known : HealthStatus → Bool
is_known ok = true
is_known failed = true
is_known (newer text) = false

abbrev pub is_failed : HealthStatus → Bool
is_failed failed = true
is_failed _ = false

-- The last report of a block.
unfoldable pub last_report : List BlockHealthReport → String → Option BlockHealthReport
last_report [] id = none
last_report (r ∷ reports) id =
    or_kept (last_report reports id) (if r.block_id == id then some r else none)

or_kept_assoc {ℓ} :
    {A : Type ℓ} (a b c : Option A) → or_kept a (or_kept b c) ≡ or_kept (or_kept a b) c
or_kept_assoc none b c = refl
or_kept_assoc (some a) b c = refl

lookup-by_block :
    (reports : List BlockHealthReport) (m : List (String × BlockHealthReport)) (id : String)
    → lookup id (by_block reports m) ≡ or_kept (last_report reports id) (lookup id m)
unfolding by_block last_report
lookup-by_block [] m id = refl
lookup-by_block (r ∷ reports) m id =
    lookup-by_block reports (insert r.block_id r m) id
    ∙ ap (or_kept (last_report reports id))
        (lookup-insert r.block_id id r m ∙ split (r.block_id == id))
    ∙ or_kept_assoc (last_report reports id) (if r.block_id == id then some r else none)
        (lookup id m)
  where
    split :
        (b : Bool)
        → (if b then some r else lookup id m) ≡ or_kept (if b then some r else none) (lookup id m)
    split true = refl
    split false = refl

-- What is known of a block: the report is of that block and has a status that is known.
Fits : String → BlockHealthReport → Type 0
Fits id r = (r.block_id ≡ id) × (is_known r.status ≡ true)

FitsIf : String → Option BlockHealthReport → Type 0
FitsIf id none = Unit {0}
FitsIf id (some r) = Fits id r

or_kept-FitsIf :
    (id : String) (a b : Option BlockHealthReport)
    → FitsIf id a
    → FitsIf id b
    → FitsIf id (or_kept a b)
or_kept-FitsIf id none b f g = g
or_kept-FitsIf id (some r) b f g = f

last_report-Fits :
    (reports : List BlockHealthReport) (id : String)
    → All (λ r. is_known r.status ≡ true) reports
    → FitsIf id (last_report reports id)
unfolding last_report FitsIf Fits
last_report-Fits [] id w = tt
last_report-Fits (r ∷ reports) id (known, w) =
    or_kept-FitsIf id (last_report reports id) (if r.block_id == id then some r else none)
      (last_report-Fits reports id w)
      (elim (Bool-cases (r.block_id == id)) [
        | inl e ↦ rw e ((string_eq.beq_iff r.block_id id).0 e, known)
        | inr e ↦ rw e tt
      ])

healthy-Fits :
    (id : String) (o : Option BlockHealthReport)
    → FitsIf id o
    → Fits id (get_or o (healthy_report id))
unfolding FitsIf Fits
healthy-Fits id none f = (refl, refl)
healthy-Fits id (some r) f = f

-- A seat with whether it has failed, as a message tells it.
abbrev pub told : GuestHealthMessage → String × Bool
told m = (m.mixer_input, m.has_failed)

message_cons :
    (status : HealthStatus) (input : String) (r : BlockHealthReport)
    (messages : List GuestHealthMessage)
    → is_known status ≡ true
    → map told
        (elim (message_for status input r) [ none ↦ messages | some message ↦ message ∷ messages ])
      ≡ (input, is_failed status) ∷ map told messages
unfolding message_for
message_cons ok input r messages known = refl
message_cons failed input r messages known = refl
message_cons (newer text) input r messages known = absurd (ground (arith, known))

module _ (guest_blocks : List (String × String)) (reports : List BlockHealthReport)
    (known : All (λ r. is_known r.status ≡ true) reports) where
  m : List (String × BlockHealthReport)
  m = by_block reports []

  -- What is told of one seat.
  seat : String × String → String × Bool
  seat (id, input) = (input, is_failed (get_or (last_report reports id) (healthy_report id)).status)

  found :
      (id : String)
      → get_or (lookup id m) (healthy_report id)
        ≡ get_or (last_report reports id) (healthy_report id)
  unfolding m lookup
  found id =
      ap (λ o. get_or o (healthy_report id))
        (lookup-by_block reports [] id ∙ to_none (last_report reports id))
    where
      to_none : (o : Option BlockHealthReport) → or_kept o none ≡ o
      to_none none = refl
      to_none (some r) = refl

  snapshot-seats :
      (rest : List (String × String))
      → All (λ e. lookup e.0 guest_blocks ≡ some e.1) rest
      → map told (snapshot_of guest_blocks m rest) ≡ map seat rest
  unfolding snapshot_of guest_health_message seat Fits
  snapshot-seats [] w = refl
  snapshot-seats ((id, input) ∷ rest) (here, w) =
      let r = get_or (last_report reports id) (healthy_report id) in
      let fits : Fits id r =
        healthy-Fits id (last_report reports id) (last_report-Fits reports id known) in
      let messages = snapshot_of guest_blocks m rest in
      let of_seat : Option String → BlockHealthReport → List GuestHealthMessage = λ o q.
        elim (elim o as (λ x. Option GuestHealthMessage) [
          | none ↦ none
          | some i ↦ message_for q.status i q
        ])
          as (λ x. List GuestHealthMessage) [
            | none ↦ messages
            | some message ↦ message ∷ messages
          ] in
      ap (λ q. map told (of_seat (lookup q.block_id guest_blocks) q)) (found id)
      ∙ ap (λ i. map told (of_seat (lookup i guest_blocks) r)) fits.0
      ∙ ap (λ o. map told (of_seat o r)) here
      ∙ message_cons r.status input r messages fits.1
      ∙ ap (λ l. (input, is_failed r.status) ∷ l) (snapshot-seats rest w)

-- Where each block is of one seat and no report has a status of a newer Strom, a studio is told
-- exactly one state for each guest seat, in order: failed where the last report of its block says so,
-- and ok otherwise.
pub snapshot-tells :
    (guest_blocks : List (String × String)) (reports : List BlockHealthReport)
    → All (λ r. is_known r.status ≡ true) reports
    → All (λ e. lookup e.0 guest_blocks ≡ some e.1) guest_blocks
    → map told (guest_health_snapshot guest_blocks reports)
      ≡ map
          (λ e. (e.1, is_failed (get_or (last_report reports e.0) (healthy_report e.0)).status))
          guest_blocks
unfolding guest_health_snapshot m seat
snapshot-tells guest_blocks reports known keyed =
    snapshot-seats guest_blocks reports known guest_blocks keyed
