-- ===== src/Deactivation/Writes.antt =====
-- What `writeDeactivatedDoc` of src/routes/productions.ts stores when other writers come in between.
use open_live.Prelude.{
  ℕ, zero, suc, ◌+◌, ◌<◌, String, true, false, not, ◌&&◌, ◌||◌, Option, none, some, is_some, ◌≡◌,
  refl, ◌∙◌, ap, sym, arith, Bool-cases, inl, inr, ◌⊎◌, string_eq, ==_refl, subst, if-holds,
}
use open_live.Production.{
  ProductionDoc, ProductionStatus, active, inactive, activating, ended, is_active, is_activating,
}
use open_live.Gpu.Settle.{GpuConfig, Write, stored, conflict, failed}
use open_live.Deactivation.{
  Stop, deactivated_doc, same_text, same_status, is_stopped, torn_down, next_update, Store,
  after_read, after_write, write_loop, write_deactivated_doc, max_db_write_retries,
}
use open_live.Deactivation.Clean.{Cleared, deactivated-Cleared, kept-Cleared}

pub same_text_refl : (o : Option String) → same_text o o ≡ true
same_text_refl none = refl
same_text_refl (some a) = ==_refl a

-- The stored document names no Strom flow but the one that this run tore down, and no intercom grouping
-- but that one, of the same manager.
pub record TornDown (doc current : ProductionDoc) : Type 0 where
  pub flow : (f : String) → current.strom_flow_id ≡ some f → doc.strom_flow_id ≡ some f
  pub grouping :
      (i : String)
      → current.intercom_production_id ≡ some i
      → (doc.intercom_production_id ≡ some i)
        × (current.intercom_manager_origin ≡ doc.intercom_manager_origin)

pub same_text-eq : (a b : Option String) → same_text a b ≡ true → a ≡ b
same_text-eq none none h = refl
same_text-eq (some a) (some b) h = ap some ((string_eq.beq_iff a b).0 h)
same_text-eq none (some b) h = absurd (ground (arith, h))
same_text-eq (some a) none h = absurd (ground (arith, h))

torn_down-TornDown :
    (doc current : ProductionDoc) → torn_down doc current ≡ true → TornDown doc current
unfolding torn_down
torn_down-TornDown doc current h = record {
  flow =
      λ f e. sym (same_text-eq current.strom_flow_id doc.strom_flow_id (ground (arith, h, e))) ∙ e;
  grouping = λ i e. (
    sym (
          same_text-eq current.intercom_production_id doc.intercom_production_id
            (ground (arith, h, e)))
        ∙ e,
    same_text-eq current.intercom_manager_origin doc.intercom_manager_origin (ground (arith, h, e)),
  );
}

TornDown-refl : (doc : ProductionDoc) → TornDown doc doc
TornDown-refl doc = record { flow = λ f e. e; grouping = λ i e. (e, refl) }

is_stopped-live :
    (s : ProductionStatus) → is_stopped s ≡ true → (is_active s || is_activating s) ≡ false
is_stopped-live active h = ground (arith, h)
is_stopped-live inactive h = refl
is_stopped-live activating h = ground (arith, h)
is_stopped-live ended h = refl

-- A document made from one whose flow and intercom grouping this run tore down.
pub record MadeFrom (g : GpuConfig) (now : ℕ) (upload : Option String)
    (doc current u : ProductionDoc) : Type 0 where
  pub stop : Option Stop
  pub made : u ≡ deactivated_doc g now stop upload current
  pub torn : TornDown doc current
  pub cleared : Cleared u
  pub same_id : u.id ≡ current.id
  pub same_outputs : u.output_ids ≡ current.output_ids

-- What holds of a result where there is one.
abbrev pub Result : (ProductionDoc → Type 0) → Option ProductionDoc → Type 0
Result P none = Unit
Result P (some u) = P u

module _ (g : GpuConfig) (upload : Option String) (doc : ProductionDoc) where
  next_update-MadeFrom :
      (now : ℕ) (current : ProductionDoc)
      → Result (MadeFrom g now upload doc current) (next_update g now upload doc current)
  unfolding next_update deactivated_doc
  next_update-MadeFrom now current = elim (Bool-cases (torn_down doc current)) [
    | inr e ↦ rw e tt
    | inl e ↦ rw e (
        if-holds (Result (MadeFrom g now upload doc current))
          (same_status current.status doc.status
            && same_text current.strom_flow_id doc.strom_flow_id)
          (record {
            stop = none;
            made = refl;
            torn = torn_down-TornDown doc current e;
            cleared = deactivated-Cleared g now upload current;
            same_id = refl;
            same_outputs = refl;
          })
          (elim (Bool-cases (is_stopped current.status && not (is_some current.strom_flow_id))) [
            | inr h ↦ rw h tt
            | inl h ↦ rw h (record {
              stop = some (record { status = current.status; ended_reason = current.ended_reason });
              made = refl;
              torn = torn_down-TornDown doc current e;
              same_id = refl;
              same_outputs = refl;
              cleared =
                  kept-Cleared g now _ upload current
                    (is_stopped-live current.status (ground (arith, h)));
            })
          ]))
  ]

-- The document that an attempt writes, with where it comes from: the first attempt's is made from the
-- document of this run, a later one's from what the read after the last conflict found.
pub record Candidate (g : GpuConfig) (s : Store) (upload : Option String) (doc : ProductionDoc)
    (attempt : ℕ) (u : ProductionDoc) : Type 0 where
  pub current : ProductionDoc
  pub from : MadeFrom g (s.clock attempt) upload doc current u
  pub read :
      ((attempt ≡ 0) × (current ≡ doc)) ⊎ ((n : ℕ) × (n + 1 ≡ attempt) × (s.reads n ≡ some current))

pub record Stored (g : GpuConfig) (s : Store) (upload : Option String) (doc u : ProductionDoc)
    : Type 0 where
  pub attempt : ℕ
  pub in_range : attempt < max_db_write_retries
  pub answered : s.writes attempt ≡ stored
  pub candidate : Candidate g s upload doc attempt u

after_write-Result :
    (P : ProductionDoc → Type 0) (answer : Write) (next : Option ProductionDoc)
    (again : ProductionDoc → Option ProductionDoc) (updated : ProductionDoc)
    → (answer ≡ stored → P updated)
    → ((u : ProductionDoc) → next ≡ some u → Result P (again u))
    → Result P (after_write answer next again updated)
unfolding after_write
after_write-Result P stored next again updated put more = put refl
after_write-Result P failed next again updated put more = tt
after_write-Result P conflict none again updated put more = tt
after_write-Result P conflict (some u) again updated put more = more u refl

module _ (g : GpuConfig) (s : Store) (upload : Option String) (doc : ProductionDoc) where
  after_read-Candidate :
      (read : Option ProductionDoc) (n : ℕ)
      → s.reads n ≡ read
      → Result (Candidate g s upload doc (n + 1)) (after_read read g (s.clock (n + 1)) upload doc)
  unfolding after_read
  after_read-Candidate none n e = tt
  after_read-Candidate (some current) n e =
      found (next_update g (s.clock (n + 1)) upload doc current)
        (next_update-MadeFrom g upload doc (s.clock (n + 1)) current)
    where
      found :
          (o : Option ProductionDoc)
          → Result (MadeFrom g (s.clock (n + 1)) upload doc current) o
          → Result (Candidate g s upload doc (n + 1)) o
      found none w = tt
      found (some u) w = record { current = current; from = w; read = inr (n, refl, e) }

  write_loop-Stored :
      (left attempt : ℕ) (updated : ProductionDoc)
      → attempt + left ≡ max_db_write_retries
      → Candidate g s upload doc attempt updated
      → Result (Stored g s upload doc) (write_loop left g s upload doc attempt updated)
  unfolding write_loop
  write_loop-Stored zero attempt updated range c = tt
  write_loop-Stored (suc left) attempt updated range c =
      after_write-Result (Stored g s upload doc) (s.writes attempt)
        (after_read (s.reads attempt) g (s.clock (attempt + 1)) upload doc)
        (write_loop left g s upload doc (attempt + 1)) updated
        (λ e. record {
          attempt = attempt;
          in_range = omega (arith, range);
          answered = e;
          candidate = c;
        })
        (λ u e. write_loop-Stored left (attempt + 1) u (omega (arith, range)) (
          subst (Result (Candidate g s upload doc (attempt + 1))) e
            (after_read-Candidate (s.reads attempt) attempt refl)))

  -- Whatever other writers do, the document that a deactivation stores is the cleared form of this run's
  -- document, or of the one that the read after the last conflict found, with the outputs of that
  -- one; and that one named no Strom flow and no intercom grouping, by id and manager, but those that
  -- this run tore down.
  pub write-Stored :
      (w : ProductionDoc) → write_deactivated_doc g s upload doc ≡ some w → Stored g s upload doc w
  unfolding write_deactivated_doc deactivated_doc
  write-Stored w e = subst (Result (Stored g s upload doc)) e (
      write_loop-Stored max_db_write_retries 0 _ (omega arith) (record {
        current = doc;
        from = record {
          stop = none;
          made = refl;
          torn = TornDown-refl doc;
          same_id = refl;
          same_outputs = refl;
          cleared = deactivated-Cleared g (s.clock 0) upload doc;
        };
        read = inl (refl, refl);
      }))

  next_update-same :
      (now : ℕ) (current : ProductionDoc)
      → torn_down doc current ≡ true
      → (same_status current.status doc.status && same_text current.strom_flow_id doc.strom_flow_id)
        ≡ true
      → next_update g now upload doc current ≡ some (deactivated_doc g now none upload current)
  unfolding next_update
  next_update-same now current torn same = rw (torn, same) refl

  -- A conflict with a change to other fields does not fail a deactivation: where the document that
  -- is read then has the same status and flow, and no other intercom grouping, its cleared form is
  -- what the second attempt stores.
  pub write-retries :
      (current : ProductionDoc)
      → s.writes 0 ≡ conflict
      → s.reads 0 ≡ some current
      → torn_down doc current ≡ true
      → (same_status current.status doc.status && same_text current.strom_flow_id doc.strom_flow_id)
        ≡ true
      → s.writes 1 ≡ stored
      → write_deactivated_doc g s upload doc
        ≡ some (deactivated_doc g (s.clock 1) none upload current)
  unfolding write_deactivated_doc write_loop after_read after_write
  write-retries current c r torn same w =
      let u = deactivated_doc g (s.clock 1) none upload current in
      let again = write_loop 2 g s upload doc 1 in
      ap
        (λ a.
          after_write a (after_read (s.reads 0) g (s.clock 1) upload doc) again
            (deactivated_doc g (s.clock 0) none upload doc))
        c
      ∙ ap
          (λ o.
            after_write conflict (after_read o g (s.clock 1) upload doc) again
              (deactivated_doc g (s.clock 0) none upload doc))
          r
      ∙ ap (λ o. after_write conflict o again (deactivated_doc g (s.clock 0) none upload doc))
          (next_update-same (s.clock 1) current torn same)
      ∙ ap
          (λ a.
            after_write a (after_read (s.reads 1) g (s.clock 2) upload doc)
              (write_loop 1 g s upload doc 2) u)
          w
