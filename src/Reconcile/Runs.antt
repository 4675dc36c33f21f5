-- ===== src/Reconcile/Runs.antt =====
-- src/services/reconcile.ts: the flow that `reconcileProductions` takes for a production's live one.
use open_live.Prelude.{
  String, true, false, List, [], ◌∷◌, Option, none, some, if◌then◌else◌, ◌==◌, string_eq, All,
  Exists, ◌≡◌, ◌≢◌, refl, ◌∙◌, ap, sym, subst, arith, Bool-cases, ◌⊎◌, inl, inr, get_or,
}
use open_live.Prelude.Dict.{lookup, has, lookup-insert}
use open_live.Production.{ProductionDoc}
use open_live.Reconcile.{Flow, add_tagged, flow_by_prod_id, flow_ids, stored_flow, live_flow_id}

-- One of Strom's flows has the id.
abbrev pub IsRunning : String → List Flow → Type 0
IsRunning f flows = Exists (λ flow. flow.id ≡ f) flows

-- One of them has the id and is tagged with the production.
abbrev pub IsTagged : String → String → List Flow → Type 0
IsTagged p f flows = Exists (λ flow. (flow.id ≡ f) × (flow.prod_id ≡ some p)) flows

abbrev pub IsUntagged : String → List Flow → Type 0
IsUntagged p flows = All (λ flow. flow.prod_id ≢ some p) flows

-- Strom runs no flow with the id that the document stores.
abbrev pub IsGone : Option String → List Flow → Type 0
IsGone stored flows = All (λ flow. stored ≢ some flow.id) flows

-- The flow that Strom runs for a production: the one that the document stores, and, where Strom runs
-- no such flow, one that is tagged with the production.
abbrev pub Runs : List Flow → ProductionDoc → Option String → Type 0
Runs flows doc none = IsGone doc.strom_flow_id flows × IsUntagged doc.id flows
Runs flows doc (some f) =
    ((doc.strom_flow_id ≡ some f) × IsRunning f flows)
    ⊎ (IsGone doc.strom_flow_id flows × IsTagged doc.id f flows)

has-IsRunning : (flows : List Flow) (f : String) → has (flow_ids flows) f ≡ true → IsRunning f flows
unfolding has
has-IsRunning [] f h = absurd (ground (arith, h))
has-IsRunning (flow ∷ flows) f h = elim (Bool-cases (flow.id == f)) [
  | inl e ↦ inl ((string_eq.beq_iff flow.id f).0 e)
  | inr e ↦ inr (has-IsRunning flows f (ground (arith, h, e)))
]

has-IsGone :
    (flows : List Flow) (f : String) → has (flow_ids flows) f ≡ false → IsGone (some f) flows
unfolding has
has-IsGone [] f h = tt
has-IsGone (flow ∷ flows) f h = (
  λ e. ground (arith, h, string_eq.beq_iff flow.id f, ap (λ o. get_or o f) e),
  has-IsGone flows f (ground (arith, h)),
)

none-IsGone : (flows : List Flow) → IsGone none flows
none-IsGone [] = tt
none-IsGone (flow ∷ flows) = (λ e. cc, none-IsGone flows)

-- What the map of tags says after some flows, by what it said before.
abbrev Tagged : String → List Flow → Option String → Option String → Type 0
Tagged p flows before none = (before ≡ none) × IsUntagged p flows
Tagged p flows before (some f) = IsTagged p f flows ⊎ (before ≡ some f)

add_tagged-lookup :
    (p : String) (tag : Option String) (id : String) (m : List (String × String))
    → ((tag ≡ some p) × (lookup p (add_tagged tag id m) ≡ some id))
      ⊎ ((tag ≢ some p) × (lookup p (add_tagged tag id m) ≡ lookup p m))
unfolding add_tagged
add_tagged-lookup p none id m = inr (λ e. cc, refl)
add_tagged-lookup p (some q) id m = elim (Bool-cases (q == p)) [
  | inl e ↦ inl (
    ap some ((string_eq.beq_iff q p).0 e),
    lookup-insert q p id m ∙ ap (λ b. if b then some id else lookup p m) e,
  )
  | inr e ↦ inr (
    λ same. ground (arith, e, string_eq.beq_iff q p, ap (λ o. get_or o q) same),
    lookup-insert q p id m ∙ ap (λ b. if b then some id else lookup p m) e,
  )
]

Tagged-cons :
    (p : String) (flow : Flow) (flows : List Flow) (before between after : Option String)
    → ((flow.prod_id ≡ some p) × (between ≡ some flow.id))
      ⊎ ((flow.prod_id ≢ some p) × (between ≡ before))
    → Tagged p flows between after
    → Tagged p (flow ∷ flows) before after
Tagged-cons p flow flows before between none (inl (tag, e)) (new, untagged) = cc
Tagged-cons p flow flows before between none (inr (tag, e)) (new, untagged) =
    (sym e ∙ new, (tag, untagged))
Tagged-cons p flow flows before between (some f) step (inl tagged) = inl (inr tagged)
Tagged-cons p flow flows before between (some f) (inl (tag, e)) (inr new) =
    inl (inl (ap (λ o. get_or o f) (sym e ∙ new), tag))
Tagged-cons p flow flows before between (some f) (inr (tag, e)) (inr new) = inr (sym e ∙ new)

flow_by_prod_id-Tagged :
    (p : String) (flows : List Flow) (m : List (String × String)) (o : Option String)
    → lookup p (flow_by_prod_id flows m) ≡ o
    → Tagged p flows (lookup p m) o
unfolding flow_by_prod_id
flow_by_prod_id-Tagged p [] m none e = (e, tt)
flow_by_prod_id-Tagged p [] m (some f) e = inr e
flow_by_prod_id-Tagged p (flow ∷ flows) m o e =
    Tagged-cons p flow flows (lookup p m) (lookup p (add_tagged flow.prod_id flow.id m)) o
      (add_tagged-lookup p flow.prod_id flow.id m)
      (flow_by_prod_id-Tagged p flows (add_tagged flow.prod_id flow.id m) o e)

Tagged-Runs :
    (flows : List Flow) (doc : ProductionDoc) (o : Option String)
    → IsGone doc.strom_flow_id flows
    → Tagged doc.id flows none o
    → Runs flows doc o
Tagged-Runs flows doc none gone (new, untagged) = (gone, untagged)
Tagged-Runs flows doc (some f) gone (inl tagged) = inr (gone, tagged)
Tagged-Runs flows doc (some f) gone (inr e) = cc

stored-Runs :
    (flows : List Flow) (doc : ProductionDoc) (stored : Option String)
    → doc.strom_flow_id ≡ stored
    → Runs flows doc
        (stored_flow (flow_ids flows) stored (lookup doc.id (flow_by_prod_id flows [])))
unfolding stored_flow lookup
stored-Runs flows doc none e =
    let tagged = lookup doc.id (flow_by_prod_id flows []) in
    Tagged-Runs flows doc tagged (subst (λ o. IsGone o flows) (sym e) (none-IsGone flows))
      (flow_by_prod_id-Tagged doc.id flows [] tagged refl)
stored-Runs flows doc (some f) e =
    let tagged = lookup doc.id (flow_by_prod_id flows []) in
    elim (Bool-cases (has (flow_ids flows) f)) [
      | inl h ↦
          subst (λ b. Runs flows doc (if b then some f else tagged)) (sym h)
            (inl (e, has-IsRunning flows f h))
      | inr h ↦
          subst (λ b. Runs flows doc (if b then some f else tagged)) (sym h)
            (Tagged-Runs flows doc tagged
              (subst (λ o. IsGone o flows) (sym e) (has-IsGone flows f h))
              (flow_by_prod_id-Tagged doc.id flows [] tagged refl))
    ]

pub live_flow_id-Runs :
    (flows : List Flow) (doc : ProductionDoc) → Runs flows doc (live_flow_id flows doc)
unfolding live_flow_id
live_flow_id-Runs flows doc = stored-Runs flows doc doc.strom_flow_id refl
