-- ===== src/Cues/Patches.antt =====
-- What the update of a document stores, and the cue that two writers can lose
-- (src/services/clip-cue-store.ts).
use open_live.Prelude.{
  ℕ, String, false, [], Option, some, get_or, if◌then◌else◌, ◌==◌, string_eq, ◌≡◌, refl, ◌∙◌, ap,
}
use open_live.Prelude.Dict.{lookup, insert, lookup-insert, lookup-inserted}
use open_live.Gpu.Settle.{Write, stored}
use open_live.Cues.{ClipCue, Cues, update_loop, update_production_doc, persist_clip_cue}

update-first {ℓ} :
    {D : Type ℓ} (patch : D → D) (reads : ℕ → Option D) (writes : ℕ → Write) (doc : D)
    → reads 0 ≡ some doc
    → writes 0 ≡ stored
    → update_production_doc patch reads writes ≡ some (patch doc)
unfolding update_production_doc update_loop
update-first patch reads writes doc r w = rw (r, w) refl

-- A cue that another writer stores between the first read of `persistClipCue` and its write is lost,
-- though the update reads the document again: where the first attempt is stored, the stored cues have
-- the new cue, and for any other input that of the first read, whatever the second read found.
pub persist-lost :
    (input other : String) (cue : ClipCue) (first now : Option Cues)
    (reads : ℕ → Option (Option Cues)) (writes : ℕ → Write)
    → reads 0 ≡ some now
    → writes 0 ≡ stored
    → (input == other) ≡ false
    → (cues : Cues) × (persist_clip_cue input cue first reads writes ≡ some (some cues))
      × (lookup input cues ≡ some cue)
      × (lookup other cues ≡ lookup other (get_or first []))
unfolding persist_clip_cue
persist-lost input other cue first now reads writes r w ne =
    let before = get_or first [] in
    (
      insert input cue before,
      update-first (λ _. some (insert input cue before)) reads writes now r w,
      lookup-inserted input cue before,
      lookup-insert input other cue before
          ∙ ap (λ b. if b then some cue else lookup other before) ne,
    )
