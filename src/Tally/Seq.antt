-- ===== src/Tally/Seq.antt =====
-- The sequence numbers and the stamps of `broadcast` in src/services/tally.service.ts.
use open_live.Prelude.{
  ℕ, String, ◌+◌, List, [], ◌∷◌, none, some, if◌then◌else◌, ◌==◌, string_eq, get_or, is_some, ◌≡◌,
  arith,
}
use open_live.Prelude.Dict.{lookup, lookup-insert}
use open_live.Prelude.Json.{
  Json, num, str, obj, Fields, end, field, get_field, IsUnique, get_field-spread,
}
use open_live.Tally.{Hub, stamp, current_seq, broadcast, send}
use open_live.Tally.Snapshot.{Event, frame, cast, run, seqs_after, broadcast-maps}

-- How many of the events broadcast to a production.
unfoldable pub count_casts : String → List Event → ℕ
count_casts p [] = 0
count_casts p (frame payload ∷ es) = count_casts p es
count_casts p (cast q ts message ∷ es) = (if q == p then 1 else 0) + count_casts p es

broadcast-seq :
    (q p ts : String) (message : Json) (h : Hub)
    → current_seq p (broadcast q ts message h) ≡ (
        if is_some (lookup p h.subscribers)
        then current_seq p h + (if q == p then 1 else 0)
        else current_seq p h)
unfolding current_seq seqs_after
broadcast-seq q p ts message h = rw (broadcast-maps q ts message h).1 (
    ground (
      arith,
      string_eq.beq_iff q p,
      lookup-insert q p (get_or (lookup q h.seq_by_production) 0 + 1) h.seq_by_production,
    ))

-- A production's counter grows by one for each broadcast to it once somebody has subscribed to it,
-- and never before; broadcasts to other productions and direct sends leave it alone.
pub run-seq :
    (w : ℕ) (p : String) (es : List Event) (h : Hub)
    → current_seq p (run w es h) ≡ (
        if is_some (lookup p h.subscribers)
        then current_seq p h + count_casts p es
        else current_seq p h)
unfolding run count_casts current_seq send
run-seq w p [] h = ground arith
run-seq w p (frame payload ∷ es) h = run-seq w p es (send w payload h)
run-seq w p (cast q ts message ∷ es) h = ground (
  arith,
  run-seq w p es (broadcast q ts message h),
  broadcast-seq q p ts message h,
  (broadcast-maps q ts message h).0,
)

abbrev pub fields_of : Json → Fields
fields_of (obj fs) = fs
fields_of _ = end

-- A broadcast object, whose property names are distinct, keeps its own properties, `ts` and `seq`
-- among them, and has the stamps where it has none of that name.
pub stamp-fields :
    (seq : ℕ) (ts k : String) (message : Fields)
    → IsUnique message
    → get_field k (fields_of (stamp seq ts (obj message))) ≡ (
        if is_some (get_field k message)
        then get_field k message
        else if "seq" == k
        then some (num seq)
        else if "ts" == k
        then some (str ts)
        else none)
unfolding stamp get_field
stamp-fields seq ts k message u =
    get_field-spread k (field "seq" (num seq) (field "ts" (str ts) end)) message u
