-- ===== src/Reconcile/Agrees.antt =====
-- What src/services/reconcile.ts leaves behind.
use open_live.Prelude.{
  ℕ, String, true, false, not, ◌||◌, List, [], ◌∷◌, Option, none, some, is_some, get_or,
  if◌then◌else◌, ◌==◌, string_eq, ==_refl, ◌≡◌, refl, ◌∙◌, ap, sym, subst, arith, Bool-cases, inl,
  inr,
}
use open_live.Prelude.Dict.{lookup, has, lookup-insert}
use open_live.Production.{
  ProductionDoc, ProductionStatus, active, inactive, activating, ended, is_active, is_activating,
  stopped_status,
}
use open_live.Deactivation.{same_text}
use open_live.Deactivation.Writes.{same_text_refl, same_text-eq}
use open_live.Reconcile.Runs.{Runs, live_flow_id-Runs}
use open_live.Reconcile.{
  Flow, add_tagged, flow_by_prod_id, flow_ids, stored_flow, live_flow_id, restored_doc, reset_doc,
  reconcile_live, reconcile_doc,
}

-- A document that agrees with the live flow of its production.
pub record Agrees (live : Option String) (before after : ProductionDoc) : Type 0 where
  pub status : is_active after.status ≡ is_some live
  pub settled : is_activating after.status ≡ false
  pub flow : (if is_some live then after.strom_flow_id else none) ≡ live
  pub hours : after.gpu_hours ≡ before.gpu_hours
  pub same_id : after.id ≡ before.id

stopped-status :
    (s : ProductionStatus)
    → (is_active (stopped_status s) ≡ false) × (is_activating (stopped_status s) ≡ false)
unfolding stopped_status
stopped-status active = (refl, refl)
stopped-status inactive = (refl, refl)
stopped-status activating = (refl, refl)
stopped-status ended = (refl, refl)

active-not_activating : (s : ProductionStatus) → is_active s ≡ true → is_activating s ≡ false
active-not_activating active h = refl
active-not_activating inactive h = refl
active-not_activating activating h = absurd (ground (arith, h))
active-not_activating ended h = refl

reconcile_live-Agrees :
    (live : Option String) (now : ℕ) (doc : ProductionDoc)
    → Agrees live doc (get_or (reconcile_live live now doc) doc)
unfolding reconcile_live restored_doc reset_doc
reconcile_live-Agrees (some f) now doc =
    elim (Bool-cases (not (is_active doc.status) || not (same_text doc.strom_flow_id (some f)))) [
      | inl e ↦
          rw e (record { status = refl; settled = refl; flow = refl; hours = refl; same_id = refl })
      | inr e ↦
          let on : is_active doc.status ≡ true = ground (arith, e) in
          rw e (record {
            status = on;
            settled = active-not_activating doc.status on;
            flow = same_text-eq doc.strom_flow_id (some f) (ground (arith, e));
            hours = refl;
            same_id = refl;
          })
    ]
reconcile_live-Agrees none now doc =
    elim (Bool-cases (is_active doc.status || is_activating doc.status)) [
      | inl e ↦
          let (off, settled) = stopped-status doc.status in
          rw e
            (record { status = off; settled = settled; flow = refl; hours = refl; same_id = refl })
      | inr e ↦ rw e (record {
        status = ground (arith, e);
        settled = ground (arith, e);
        flow = refl;
        hours = refl;
        same_id = refl;
      })
    ]

-- After the reconcile of a production against Strom's flows, if its write succeeds, the document is
-- active exactly where Strom runs the flow that the document stored, or one that is tagged with the
-- production, and it names that flow then, the stored one first; it is never left activating, and
-- has the GPU hours that it had.
pub reconcile-Agrees :
    (flows : List Flow) (now : ℕ) (doc : ProductionDoc)
    → (live : Option String) × Runs flows doc live
      × Agrees live doc (get_or (reconcile_doc flows now doc) doc)
unfolding reconcile_doc
reconcile-Agrees flows now doc =
    let live = live_flow_id flows doc in
    (live, live_flow_id-Runs flows doc, reconcile_live-Agrees live now doc)

-- Every flow that the map names is one of Strom's.
Known : List String → List (String × String) → Type 0
Known ids by_prod = (p f : String) → lookup p by_prod ≡ some f → has ids f ≡ true

-- A document that agrees with its live flow is not written.
Agrees-quiet :
    (live : Option String) (now : ℕ) (before after : ProductionDoc)
    → Agrees live before after
    → reconcile_live live now after ≡ none
unfolding reconcile_live
Agrees-quiet none now before after a =
    ap (λ b. if b || is_activating after.status then some (reset_doc after) else none) a.status
    ∙ ap (λ b. if b then some (reset_doc after) else none) a.settled
Agrees-quiet (some f) now before after a =
    ap
      (λ b.
        if not b || not (same_text after.strom_flow_id (some f))
        then some (restored_doc now f after)
        else none)
      a.status
    ∙ ap (λ o. if not (same_text o (some f)) then some (restored_doc now f after) else none) a.flow
    ∙ ap (λ b. if not b then some (restored_doc now f after) else none) (same_text_refl (some f))

add_tagged-Known :
    (ids : List String) (tag : Option String) (id : String) (m : List (String × String))
    → has ids id ≡ true
    → Known ids m
    → Known ids (add_tagged tag id m)
unfolding Known add_tagged
add_tagged-Known ids none id m on w p g e = w p g e
add_tagged-Known ids (some q) id m on w p g e = elim (Bool-cases (q == p)) [
  | inl h ↦
      let found : some id ≡ some g = rw h at (sym (lookup-insert q p id m) ∙ e) in
      subst (λ i. has ids i ≡ true) (ap (λ o. get_or o id) found) on
  | inr h ↦ w p g (rw h at (sym (lookup-insert q p id m) ∙ e))
]

flow_by_prod_id-Known :
    (ids : List String) (flows : List Flow) (m : List (String × String))
    → ((i : String) → has (flow_ids flows) i ≡ true → has ids i ≡ true)
    → Known ids m
    → Known ids (flow_by_prod_id flows m)
unfolding flow_by_prod_id has
flow_by_prod_id-Known ids [] m within w = w
flow_by_prod_id-Known ids (f ∷ flows) m within w =
    flow_by_prod_id-Known ids flows (add_tagged f.prod_id f.id m)
      (λ i h. within i (ground (arith, h)))
      (add_tagged-Known ids f.prod_id f.id m (within f.id (ground (arith, ==_refl f.id))) w)

module _ (ids : List String) (tagged : Option String) where
  tagged-none : (o : Option String) → stored_flow ids o tagged ≡ none → tagged ≡ none
  unfolding stored_flow
  tagged-none none h = h
  tagged-none (some f) h = ground (arith, h)

  live-known :
      (o : Option String) (f : String)
      → ((g : String) → tagged ≡ some g → has ids g ≡ true)
      → stored_flow ids o tagged ≡ some f
      → has ids f ≡ true
  unfolding stored_flow
  live-known none f known h = known f h
  live-known (some g) f known h = elim (Bool-cases (has ids g)) [
    | inl e ↦
        let same : some g ≡ some f = rw e at h in
        subst (λ i. has ids i ≡ true) (ap (λ o. get_or o g) same) e
    | inr e ↦ known f (rw e at h)
  ]

  same_live :
      (live : Option String) (now : ℕ) (doc : ProductionDoc)
      → ((g : String) → tagged ≡ some g → has ids g ≡ true)
      → stored_flow ids doc.strom_flow_id tagged ≡ live
      → stored_flow ids (get_or (reconcile_live live now doc) doc).strom_flow_id tagged ≡ live
  unfolding reconcile_live reset_doc stored_flow
  same_live none now doc known h =
      elim (Bool-cases (is_active doc.status || is_activating doc.status)) [
        | inl e ↦ rw e (tagged-none doc.strom_flow_id h)
        | inr e ↦ rw e h
      ]
  same_live (some f) now doc known h =
      let on = live-known doc.strom_flow_id f known h in
      ap (λ o. stored_flow ids o tagged) (reconcile_live-Agrees (some f) now doc).flow
      ∙ ap (λ b. if b then some f else tagged) on

none-Known : (ids : List String) → Known ids []
unfolding Known lookup
none-Known ids p f e = absurd (ground (arith, e))

-- A second reconcile with the same flows writes nothing.
pub reconcile-twice :
    (flows : List Flow) (now later : ℕ) (doc : ProductionDoc)
    → reconcile_doc flows later (get_or (reconcile_doc flows now doc) doc) ≡ none
unfolding reconcile_doc live_flow_id Known
reconcile-twice flows now later doc =
    let live = live_flow_id flows doc in
    let after = get_or (reconcile_live live now doc) doc in
    let agrees = reconcile_live-Agrees live now doc in
    let by_prod = flow_by_prod_id flows [] in
    let known =
      flow_by_prod_id-Known (flow_ids flows) flows [] (λ i h. h) (none-Known (flow_ids flows)) in
    let same : live_flow_id flows after ≡ live =
      ap (λ i. stored_flow (flow_ids flows) after.strom_flow_id (lookup i by_prod)) agrees.same_id
      ∙ same_live (flow_ids flows) (lookup doc.id by_prod) live now doc (known doc.id) refl in
    ap (λ l. reconcile_live l later after) same ∙ Agrees-quiet live later doc after agrees
