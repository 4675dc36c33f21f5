-- ===== src/Switcher/Buses.antt =====
-- The vision mixer as src/ws/controller.ts relies on it: a preview selects the source of the preview
-- bus, and a take swaps the two buses, whatever inputs it names. What the switcher keeps is read as
-- the state of the buses.
use open_live.Prelude.{
  ℕ, zero, suc, ◌+◌, String, List, [], ◌∷◌, ◌++◌, Option, none, some, ◌≡◌, ◌≢◌, refl, ◌⊎◌, inl, inr,
}
use open_live.Tally.{Tally}
use open_live.Gpu.Settle.{Write, stored, conflict, failed}
use open_live.Switcher.{Setting, Source, Call, Show, ask, persist_loop, persist_mixer_mutation}
use open_live.Switcher.Source.{input, pip}
use open_live.Switcher.Call.{select_preview, take, follow_audio}
use open_live.Switcher.Result.{finished}

pub record Buses : Type 0 where
  pub program : Option Source
  pub preview : Option Source

abbrev pub pair : Option Source → Option Source → Buses
pair program preview = record { program = program; preview = preview }

abbrev pub step : Call → Buses → Buses
step (select_preview source) b = record b { preview = some source }
step (take from to move) b = record { program = b.preview; preview = b.program }
step (follow_audio target) b = b

abbrev pub play : List Call → Buses → Buses
play [] b = b
play (c ∷ cs) b = play cs (step c b)

play-snoc : (cs : List Call) (c : Call) (b : Buses) → play (cs ++ c ∷ []) b ≡ step c (play cs b)
play-snoc [] c b = refl
play-snoc (d ∷ cs) c b = play-snoc cs c (step d b)

abbrev on_pad : Option ℕ → Option Source
on_pad none = none
on_pad (some index) = some (input index)

abbrev on_name : Setting → Option String → Option Source
on_name set none = none
on_name set (some name) = on_pad (set.pad name)

abbrev pub bus : Setting → Option ℕ → Option String → Option Source
bus set (some p) name = some (pip p)
bus set none name = on_name set name

-- The buses that the tally and the PiPs describe.
abbrev pub buses_of : Setting → Show → Buses
buses_of set s = record {
  program = bus set s.pgm_pip s.tally.pgm;
  preview = bus set s.pvw_pip s.tally.pvw;
}

-- What was asked of the mixer, from its first state `b` on, has brought it to these buses.
abbrev pub InSync : Setting → Buses → Show → Type 0
InSync set b s = play s.calls b ≡ buses_of set s

pub play-ask : (c : Call) (s : Show) (b : Buses) → play (ask c s).calls b ≡ step c (play s.calls b)
play-ask c s b = play-snoc s.calls c b

persist_loop-finished :
    (left : ℕ) (writes : ℕ → Write) (attempt : ℕ) (tally : Tally) (s : Show)
    → ((n : ℕ) → writes n ≢ failed)
    → (kept : Tally) × (persist_loop left writes attempt tally s
        ≡ finished (record s { stored_tally = kept }))
unfolding persist_loop
persist_loop-finished zero writes attempt tally s sound = (s.stored_tally, refl)
persist_loop-finished (suc left) writes attempt tally s sound =
    elim (Write-cases (writes attempt)) [
      | inl e ↦ (tally, rw (e, persist_loop))
      | inr (inl e) ↦
          let (kept, later) = persist_loop-finished left writes (attempt + 1) tally s sound in
          (kept, rw (e, persist_loop) later)
      | inr (inr e) ↦ absurd (sound attempt e)
    ]
  where
    Write-cases : (w : Write) → (w ≡ stored) ⊎ (w ≡ conflict) ⊎ (w ≡ failed)
    Write-cases stored = inl refl
    Write-cases conflict = inr (inl refl)
    Write-cases failed = inr (inr refl)

-- With no error but a conflict, a write of the tally comes back, and only what is stored differs.
pub persist-finished :
    (writes : ℕ → Write) (tally : Tally) (s : Show)
    → ((n : ℕ) → writes n ≢ failed)
    → (kept : Tally) × (persist_mixer_mutation writes tally s
        ≡ finished (record s { stored_tally = kept }))
unfolding persist_mixer_mutation
persist-finished writes tally s sound = persist_loop-finished 3 writes 0 tally s sound
