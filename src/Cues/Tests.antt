-- ===== src/Cues/Tests.antt =====
-- The theorem about src/services/clip-cue-store.ts at two cues that are set at the same time.
use open_live.Prelude.{[], ◌∷◌, none, some, string_eq, ◌≡◌, refl}
use open_live.Prelude.Dict.{lookup}
use open_live.Gpu.Settle.{stored}
use open_live.Cues.{ClipCue, Cues, persist_clip_cue}
use open_live.Cues.Patches.{persist-lost}

abbrev intro : ClipCue
intro = record { clip_id = "intro"; position_ms = some 0; duration_ms = none }

abbrev outro : ClipCue
outro = record { clip_id = "outro"; position_ms = some 500; duration_ms = none }

-- The cue of "video_in_2" was stored after the first read.
persist-lost_example :
    (cues : Cues) × (persist_clip_cue "video_in_1" intro none
        (λ _. some (some (("video_in_2", outro) ∷ [])))
        (λ _. stored)
      ≡ some (some cues))
    × (lookup "video_in_1" cues ≡ some intro)
    × (lookup "video_in_2" cues ≡ none)
unfolding lookup
persist-lost_example =
    persist-lost "video_in_1" "video_in_2" intro none (some (("video_in_2", outro) ∷ []))
      (λ _. some (some (("video_in_2", outro) ∷ []))) (λ _. stored) refl refl refl
