-- ===== src/Deactivation.antt =====
-- src/routes/productions.ts: the document that a requested deactivation writes, and the two loops
-- that write a production's document over revision conflicts.
pub mod Writes
pub mod Clean
pub mod Tests
use open_live.Prelude.{
  or_kept, ℕ, zero, suc, ◌+◌, String, Bool, true, false, not, ◌&&◌, ◌||◌, Option, none, some,
  if◌then◌else◌, ltb, ◌==◌, string_eq, is_some,
}
use open_live.Production.{
  ProductionDoc, ProductionStatus, active, inactive, activating, ended, EndedReason, deactivated,
  stopped_status, no_flow, no_tally,
}
use open_live.Gpu.Settle.{GpuConfig, settle_on_stop, Write, stored, conflict, failed}

abbrev pub max_db_write_retries : ℕ
max_db_write_retries = 3

-- `Pick<ProductionDoc, 'status' | 'endedReason'>`
pub record Stop : Type 0 where
  pub status : ProductionStatus
  pub ended_reason : Option EndedReason

abbrev reason_for : ProductionStatus → Option EndedReason
reason_for ended = some deactivated
reason_for _ = none

-- `stopped` where it is given, and the transition rule otherwise.
unfoldable pub stop_of : Option Stop → ProductionStatus → Stop
unfolding stopped_status
stop_of (some stop) status = stop
stop_of none status = record {
  status = stopped_status status;
  ended_reason = reason_for (stopped_status status);
}

unfoldable pub deactivated_doc :
    GpuConfig → ℕ → Option Stop → Option String → ProductionDoc → ProductionDoc
unfolding stop_of
deactivated_doc g now stopped last_recording_upload doc =
    let stop = stop_of stopped doc.status in
    record doc {
      status = stop.status;
      ended_reason = stop.ended_reason;
      activated_at = none;
      gpu_hours = or_kept (settle_on_stop g doc now) doc.gpu_hours;
      last_recording_upload = or_kept last_recording_upload doc.last_recording_upload;
      strom_flow_id = none;
      intercom_production_id = none;
      intercom_manager_origin = none;
      tally = no_tally;
      flow = no_flow;
    }

abbrev pub same_text : Option String → Option String → Bool
same_text none none = true
same_text (some a) (some b) = a == b
same_text _ _ = false

unfoldable pub same_status : ProductionStatus → ProductionStatus → Bool
same_status active active = true
same_status inactive inactive = true
same_status activating activating = true
same_status ended ended = true
same_status _ _ = false

-- The stored document names no Strom flow or intercom grouping other than those of `doc`.
unfoldable pub torn_down : ProductionDoc → ProductionDoc → Bool
torn_down doc current =
    (not (is_some current.strom_flow_id) || same_text current.strom_flow_id doc.strom_flow_id)
    && (not (is_some current.intercom_production_id)
        || (same_text current.intercom_production_id doc.intercom_production_id
            && same_text current.intercom_manager_origin doc.intercom_manager_origin))

abbrev is_stopped : ProductionStatus → Bool
is_stopped inactive = true
is_stopped ended = true
is_stopped _ = false

-- What the handler of a conflict makes of the stored document: the next document to write, or
-- `none` where it throws.
unfoldable pub next_update :
    GpuConfig → ℕ → Option String → ProductionDoc → ProductionDoc → Option ProductionDoc
unfolding deactivated_doc torn_down same_status
next_update g now upload doc current =
    if not (torn_down doc current)
    then none
    else if same_status current.status doc.status
        && same_text current.strom_flow_id doc.strom_flow_id
    then some (deactivated_doc g now none upload current)
    else if is_stopped current.status && not (is_some current.strom_flow_id)
    then some (
        deactivated_doc g now
          (some (record { status = current.status; ended_reason = current.ended_reason })) upload
          current)
    else none

-- What the database answers to the insert of each attempt, what a read after a conflict finds
-- (`none` where it throws), and the clock of each settlement.
pub record Store : Type 0 where
  pub writes : ℕ → Write
  pub reads : ℕ → Option ProductionDoc
  pub clock : ℕ → ℕ

-- The read after a conflict and what its handler makes of it.
unfoldable pub after_read :
    Option ProductionDoc → GpuConfig → ℕ → Option String → ProductionDoc → Option ProductionDoc
unfolding next_update
after_read none g now upload doc = none
after_read (some current) g now upload doc = next_update g now upload doc current

-- One attempt by its answer: `next` is what a conflict leads to, and `again` the attempts after it.
unfoldable pub after_write :
    Write
    → Option ProductionDoc
    → (ProductionDoc → Option ProductionDoc)
    → ProductionDoc
    → Option ProductionDoc
after_write stored next again updated = some updated
after_write failed next again updated = none
after_write conflict none again updated = none
after_write conflict (some u) again updated = again u

-- The loop of `writeDeactivatedDoc`: what was stored at last, or `none` where it throws, as it does
-- once the attempts run out.
unfoldable pub write_loop :
    ℕ → GpuConfig → Store → Option String → ProductionDoc → ℕ → ProductionDoc → Option ProductionDoc
unfolding after_read after_write
write_loop zero g s upload doc attempt updated = none
write_loop (suc left) g s upload doc attempt updated =
    after_write (s.writes attempt)
      (after_read (s.reads attempt) g (s.clock (attempt + 1)) upload doc)
      (write_loop left g s upload doc (attempt + 1)) updated

unfoldable pub write_deactivated_doc :
    GpuConfig → Store → Option String → ProductionDoc → Option ProductionDoc
unfolding write_loop deactivated_doc
write_deactivated_doc g s upload doc =
    write_loop max_db_write_retries g s upload doc 0 (deactivated_doc g (s.clock 0) none upload doc)
