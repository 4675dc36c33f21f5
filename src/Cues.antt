-- ===== src/Cues.antt =====
-- src/services/clip-cue-store.ts and `updateProductionDoc` of src/routes/productions.ts: the cue
-- points of a production, written over revision conflicts.
pub mod Patches
pub mod Tests
use open_live.Prelude.{
  ℕ, zero, suc, ◌+◌, String, Bool, true, false, [], List, Option, none, some, get_or, is_some,
  if◌then◌else◌, string_eq,
}
use open_live.Prelude.Dict.{lookup, insert, remove}
use open_live.Gpu.Settle.{Write, stored, conflict, failed}
use open_live.Deactivation.{max_db_write_retries}

pub record ClipCue : Type 0 where
  pub clip_id : String
  pub position_ms : Option ℕ
  pub duration_ms : Option ℕ

abbrev pub Cues : Type 0
Cues = List (String × ClipCue)

-- The loop of `updateProductionDoc` over any document: each attempt reads (`none` where that throws),
-- applies the patch and inserts. The result is what was stored, or `none` where it throws.
unfoldable pub update_loop {ℓ} :
    {D : Type ℓ} → ℕ → (D → D) → (ℕ → Option D) → (ℕ → Write) → ℕ → Option D
update_loop zero patch reads writes attempt = none
update_loop (suc left) patch reads writes attempt =
    let again = update_loop left patch reads writes (attempt + 1) in
    elim (reads attempt) [
      | none ↦ none
      | some doc ↦ elim (writes attempt) [
        | stored ↦ some (patch doc)
        | conflict ↦ again
        | failed ↦ none
      ]
    ]

unfoldable pub update_production_doc {ℓ} :
    {D : Type ℓ} → (D → D) → (ℕ → Option D) → (ℕ → Write) → Option D
unfolding update_loop
update_production_doc patch reads writes = update_loop max_db_write_retries patch reads writes 0

-- What `persistClipCue` writes over the cues of its own read: the same map, whatever the reads of
-- the update find.
unfoldable pub persist_clip_cue :
    String → ClipCue → Option Cues → (ℕ → Option (Option Cues)) → (ℕ → Write) → Option (Option Cues)
unfolding update_production_doc
persist_clip_cue input cue first reads writes =
    let clip_cues = insert input cue (get_or first []) in
    update_production_doc (λ _. some clip_cues) reads writes

unfoldable pub clear_persisted_clip_cue :
    String → Option Cues → (ℕ → Option (Option Cues)) → (ℕ → Write) → Option (Option Cues)
unfolding update_production_doc
clear_persisted_clip_cue input none reads writes = none
clear_persisted_clip_cue input (some cues) reads writes =
    if is_some (lookup input cues)
    then update_production_doc (λ _. some (remove input cues)) reads writes
    else none
