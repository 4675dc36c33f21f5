-- ===== src/Deactivation/Tests.antt =====
-- The theorems about the deactivation in src/routes/productions.ts at a concrete production.
use open_live.Prelude.{false, [], some, none, string_eq, ◌≡◌, refl, if◌then◌else◌, nat_beq}
use open_live.Production.{ProductionDoc, stopped_status}
use open_live.Production.Samples.{live_doc}
use open_live.Gpu.Settle.{GpuConfig, stored, conflict, settle_on_stop}
use open_live.Watchdog.{idle_stopped_doc}
use open_live.Deactivation.{
  Store, stop_of, deactivated_doc, write_deactivated_doc, write_loop, after_read, after_write,
  next_update, torn_down, same_status,
}
use open_live.Deactivation.Clean.{Cleared, deactivated-after_idle}
use open_live.Deactivation.Writes.{Stored, write-Stored}

abbrev unmetered : GpuConfig
unmetered = record { enabled = false; retention_hours = 48; accrual_floor_ms = none }

-- Somebody assigns an output while the deactivation runs.
abbrev changed_doc : ProductionDoc
changed_doc = record live_doc { output_ids = [] }

abbrev store : Store
store = record {
  writes = λ n. if nat_beq n 0 then conflict else stored;
  reads = λ _. some changed_doc;
  clock = λ _. 14_700_000;
}

abbrev result : ProductionDoc
result = deactivated_doc unmetered 14_700_000 none (some "upload") changed_doc

write-Stored_example : Stored unmetered store (some "upload") live_doc result
unfolding write_deactivated_doc write_loop after_read after_write next_update torn_down same_status
    deactivated_doc stop_of stopped_status settle_on_stop
write-Stored_example = write-Stored unmetered store (some "upload") live_doc result refl

abbrev idled : ProductionDoc
idled = idle_stopped_doc unmetered 14_700_000 none live_doc

abbrev then_stopped : ProductionDoc
then_stopped =
    deactivated_doc unmetered 14_800_000
      (some (record { status = idled.status; ended_reason = idled.ended_reason })) none idled

deactivated-after_idle_example :
    Cleared then_stopped
    × (then_stopped.status ≡ idled.status)
    × (then_stopped.ended_reason ≡ idled.ended_reason)
    × (then_stopped.gpu_hours ≡ idled.gpu_hours)
    × (idled.flow.clip_player_block_ids ≡ some "clips")
deactivated-after_idle_example =
    deactivated-after_idle unmetered 14_700_000 14_800_000 none live_doc
