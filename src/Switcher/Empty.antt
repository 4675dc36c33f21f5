-- ===== src/Switcher/Empty.antt =====
-- src/ws/controller.ts: TAKE with nothing on preview.
use open_live.Prelude.{
  ℕ, String, true, Option, none, some, ◌≡◌, ◌≢◌, refl, ap, sym, ◌∙◌, subst, arith, if◌then◌else◌,
  if-holds,
}
use open_live.Gpu.Settle.{failed}
use open_live.Switcher.{
  Setting, Answers, Move, Show, ◌>>=◌, emit, pgm_bg_of, tally_now, strom_transition,
  snapshot_switch_state,
}
use open_live.Switcher.Event.{pip_state, executed}
use open_live.Switcher.Call.{follow_audio}
use open_live.Switcher.Result.{finished}
use open_live.Switcher.Commands.{
  same_pip, swapped, asked_take, took, take_command, asked, followed, preview_again, reverse_pip,
}
use open_live.Switcher.Buses.{Buses, play, play-ask, persist-finished}

asked_take-empty :
    (set : Setting) (ans : Answers) (move : Move) (q o : Option ℕ) (bg : Option String)
    (s now : Show)
    → q ≡ none
    → o ≡ none
    → s.tally.pvw ≡ none
    → asked_take set ans move q o bg s now ≡ (now, true)
unfolding strom_transition
asked_take-empty set ans move (some q) o bg s now eq eo empty = absurd (ground arith)
asked_take-empty set ans move none (some p) bg s now eq eo empty = absurd (ground arith)
asked_take-empty set ans move none none bg s now eq eo empty =
    ap (λ name. strom_transition set ans s.tally.pgm name move now) empty

-- The tally of a swap, no PiP on program, and the buses as they were.
abbrev IsSwap : Buses → Show → Show → Type 0
IsSwap b s t =
    (t.tally ≡ record { pgm = none; pvw = s.tally.pgm })
    × (t.pgm_pip ≡ none)
    × (play t.calls b ≡ play s.calls b)

reverse_pip-none : (q o : Option ℕ) → q ≡ none → o ≡ none → reverse_pip q o ≡ none
reverse_pip-none none o eq eo = eo
reverse_pip-none (some q) o eq eo = refl

took-IsSwap :
    (set : Setting) (ans : Answers) (b : Buses) (s now : Show)
    → reverse_pip s.pvw_pip s.pgm_pip ≡ none
    → IsSwap b s now
    → (t : Show) × (took set ans (snapshot_switch_state s) s (now, true) ≡ finished t)
      × IsSwap b s t
took-IsSwap set ans b s now quiet swap =
    let said = emit (pip_state s.pvw_pip s.pgm_pip) now in
    let test = same_pip now.pvw_pip s.pgm_pip in
    let told = if test then preview_again set (reverse_pip s.pvw_pip s.pgm_pip) said else now in
    let heard : IsSwap b s told =
      if-holds (IsSwap b s) test
        (subst (λ o. IsSwap b s (preview_again set o said)) (sym quiet) swap) swap in
    (
      emit executed (followed set s.tally.pvw told),
      refl,
      if-holds (IsSwap b s) set.audio
          (heard.0, heard.1, play-ask (follow_audio s.tally.pvw) told b ∙ heard.2) heard,
    )

-- With nothing on preview and no PiP on either bus, a TAKE whose write comes back is acknowledged and
-- takes the input off program in the tally, but asks Strom for no take: the buses of the mixer stay
-- as they were.
pub take-empty :
    (set : Setting) (ans : Answers) (move : Move) (b : Buses) (s : Show)
    → s.pgm_pip ≡ none
    → s.pvw_pip ≡ none
    → s.tally.pvw ≡ none
    → ((n : ℕ) → ans.writes n ≢ failed)
    → (t : Show) × (take_command set ans none move s ≡ finished t)
      × (t.tally ≡ record { pgm = none; pvw = s.tally.pgm })
      × (t.pgm_pip ≡ none)
      × (play t.calls b ≡ play s.calls b)
unfolding take_command
take-empty set ans move b s off unseen empty sound =
    let after = swapped s in
    let (kept, wrote) = persist-finished ans.writes after.tally after sound in
    let now =
      tally_now set (some (asked move)) after.tally (record after { stored_tally = kept }) in
    let bg = pgm_bg_of set after in
    let (t, did, swap) =
      took-IsSwap set ans b s now (reverse_pip-none s.pvw_pip s.pgm_pip unseen off)
        (ap (λ name. record { pgm = name; pvw = s.tally.pgm }) empty, unseen, refl) in
    (
      t,
      ap
            (λ r. r >>= λ saved. took set ans (snapshot_switch_state s) s (
              asked_take set ans (asked move) s.pvw_pip s.pgm_pip bg s
                (tally_now set (some (asked move)) after.tally saved)))
            wrote
          ∙ (ap (took set ans (snapshot_switch_state s) s) (
                asked_take-empty set ans (asked move) s.pvw_pip s.pgm_pip bg s now unseen off empty)
              ∙ did),
      swap.0,
      swap.1,
      swap.2,
    )
