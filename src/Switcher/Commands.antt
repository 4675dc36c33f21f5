-- ===== src/Switcher/Commands.antt =====
-- src/ws/controller.ts: the handlers of the switcher's commands.
use open_live.Prelude.{
  ℕ, String, Bool, true, false, not, Option, none, some, is_some, if◌then◌else◌, ◌==◌, nat_eq,
  string_eq, ◌&&◌,
}
use open_live.Tally.{Tally}
use open_live.Switcher.{
  Setting, Answers, Move, Show, Result, ◌>>=◌, emit, ask, pgm_bg_of, build_tally_payload, tally_now,
  is_already_on_program, rebroadcast_mixer_state, persist_mixer_mutation, strom_transition,
  take_input_index, SwitchStateSnapshot, snapshot_switch_state, restore_switch_state,
}
use open_live.Switcher.Event.{pip_state, executed, rejected}
use open_live.Switcher.Source.{input, pip}
use open_live.Switcher.Call.{select_preview, take, follow_audio}
use open_live.Switcher.Result.{finished}

abbrev pub same_pip : Option ℕ → Option ℕ → Bool
same_pip none none = true
same_pip (some a) (some b) = a == b
same_pip _ _ = false

abbrev pub is_name : Option String → String → Bool
is_name none target = false
is_name (some name) target = name == target

-- `toStromTransition`: an empty type is a cut.
abbrev pub to_strom_transition : String → String
to_strom_transition kind = if kind == "" then "cut" else kind

abbrev pub asked : Move → Move
asked move = record move { transition_type = to_strom_transition move.transition_type }

-- The end of a command that Strom refused.
abbrev pub refused : Setting → Answers → SwitchStateSnapshot → Show → Result
refused set ans before s =
    restore_switch_state set ans.rollback_writes before s >>= λ back. finished (emit rejected back)

abbrev pub followed : Setting → Option String → Show → Show
followed set target s = if set.audio then ask (follow_audio target) s else s

-- The PiP on program goes to the preview; one on preview alone is cleared. The option is the event
-- to announce.
abbrev pub displace : Option ℕ → Option ℕ → Show → Show × Option (Option ℕ)
displace (some p) pvw_pip s = (record s { pgm_pip = none; pvw_pip = some p }, some (some p))
displace none (some q) s = (record s { pvw_pip = none }, some none)
displace none none s = (s, none)

abbrev pub preview_again : Setting → Option ℕ → Show → Show
preview_again set none s = s
preview_again set (some p) s = if set.live then ask (select_preview (pip p)) s else s

-- Told only while the preview is still what the command left there.
abbrev pub announce : Setting → Option ℕ → Option (Option ℕ) → Show → Show
announce set cur_pgm_pip none s = s
announce set cur_pgm_pip (some pvw_pip) s =
    if same_pip s.pvw_pip pvw_pip
    then preview_again set cur_pgm_pip (emit (pip_state none pvw_pip) s)
    else s

abbrev pub from_pad : Setting → Show → Option String
from_pad set s =
    if is_some s.pgm_pip && not (is_some s.tally.pgm) then pgm_bg_of set s else s.tally.pgm

abbrev pub switched :
    Setting
    → Answers
    → SwitchStateSnapshot
    → Option ℕ
    → Option (Option ℕ)
    → String
    → Show × Bool
    → Result
switched set ans before cur_pgm_pip event target (s, true) =
    finished (emit executed (followed set (some target) (announce set cur_pgm_pip event s)))
switched set ans before cur_pgm_pip event target (s, false) = refused set ans before s

-- CUT and TRANSITION to a source that is neither on program nor under the PiP there. `told` is what
-- the TALLY message says of the transition.
unfoldable pub switch_to : Setting → Answers → Move → Option Move → String → Show → Result
unfolding strom_transition persist_mixer_mutation restore_switch_state build_tally_payload pgm_bg_of
    snapshot_switch_state
switch_to set ans move told target s =
    let from = from_pad set s in
    let before = snapshot_switch_state s in
    let new_tally : Tally = record { pgm = some target; pvw = s.tally.pgm } in
    let cur_pgm_pip = s.pgm_pip in
    let (moved, event) = displace s.pgm_pip s.pvw_pip (record s { tally = new_tally }) in
    persist_mixer_mutation ans.writes new_tally moved >>= λ saved.
    switched set ans before cur_pgm_pip event target
      (strom_transition set ans from (some target) move (tally_now set told new_tally saved))

abbrev pub taken_off : Setting → Answers → SwitchStateSnapshot → ℕ → Show × Bool → Result
taken_off set ans before p (s, true) =
    finished
      (emit executed (if same_pip s.pvw_pip (some p) then emit (pip_state none (some p)) s else s))
taken_off set ans before p (s, false) = refused set ans before s

-- The target is the background of the PiP on program.
unfoldable pub take_pip_off_to_background :
    Setting → Answers → Move → Option Move → String → ℕ → Show → Result
unfolding strom_transition persist_mixer_mutation restore_switch_state build_tally_payload
    snapshot_switch_state
take_pip_off_to_background set ans move told target p s =
    let before = snapshot_switch_state s in
    let new_tally : Tally = record { pgm = some target; pvw = none } in
    let moved : Show = record s { tally = new_tally; pgm_pip = none; pvw_pip = some p } in
    persist_mixer_mutation ans.writes new_tally moved >>= λ saved.
    taken_off set ans before p (
      strom_transition set ans (some target) (some target) move
        (tally_now set told new_tally saved))

abbrev pub to_real_source :
    Setting → Answers → Move → Option Move → String → Option ℕ → Show → Result
to_real_source set ans move told target none s =
    if is_already_on_program target s
    then finished (emit executed (rebroadcast_mixer_state set s))
    else switch_to set ans move told target s
to_real_source set ans move told target (some p) s =
    if is_name (pgm_bg_of set s) target
    then take_pip_off_to_background set ans move told target p s
    else if is_already_on_program target s
    then finished (emit executed (rebroadcast_mixer_state set s))
    else switch_to set ans move told target s

unfoldable pub cut : Setting → Answers → String → Show → Result
unfolding switch_to take_pip_off_to_background is_already_on_program rebroadcast_mixer_state
    pgm_bg_of
cut set ans target s =
    to_real_source set ans (record { transition_type = "cut"; duration_ms = none }) none target
      s.pgm_pip s

unfoldable pub transition : Setting → Answers → Move → String → Show → Result
unfolding switch_to take_pip_off_to_background is_already_on_program rebroadcast_mixer_state
    pgm_bg_of
transition set ans move target s =
    to_real_source set ans (asked move) (some move) target s.pgm_pip s

-- The source of a take that TAKE names goes to the preview first.
abbrev pub with_pip : Option ℕ → Show → Show
with_pip none s = s
with_pip (some p) s = record s {
  tally = record { pgm = s.tally.pgm; pvw = none };
  pvw_pip = some p;
}

abbrev pub swapped : Show → Show
swapped s = record s {
  tally = record { pgm = s.tally.pvw; pvw = s.tally.pgm };
  pgm_pip = s.pvw_pip;
  pvw_pip = s.pgm_pip;
}

abbrev pub or_else : Option String → Option String → Option String
or_else (some a) b = some a
or_else none b = b

-- A PiP comes from the preview: its preview is selected again, and a refusal there ends the take.
abbrev pub take_pip_on :
    Setting → Answers → Option String → Option String → ℕ → Move → Show → Show × Bool
take_pip_on set ans from to p move s =
    if set.live
    then (if ans.preview_accepted
        then (
          ask (take (take_input_index set from) (take_input_index set to) move)
              (ask (select_preview (pip p)) s),
          ans.take_accepted,
        )
        else (ask (select_preview (pip p)) s, false))
    else (s, true)

abbrev pub take_pip_back :
    Setting → Answers → Option String → Option String → Move → Show → Show × Bool
take_pip_back set ans from to move s =
    if set.live
    then (
      ask (take (take_input_index set from) (take_input_index set to) move) s,
      ans.take_accepted,
    )
    else (s, true)

-- `s` is the state before the swap and `now` the one to go on from.
abbrev pub asked_take :
    Setting → Answers → Move → Option ℕ → Option ℕ → Option String → Show → Show → Show × Bool
asked_take set ans move (some q) pgm_pip new_bg s now =
    take_pip_on set ans (or_else s.tally.pgm (pgm_bg_of set s)) new_bg q move now
asked_take set ans move none (some p) new_bg s now =
    take_pip_back set ans (pgm_bg_of set s) s.tally.pvw move now
asked_take set ans move none none new_bg s now =
    strom_transition set ans s.tally.pgm s.tally.pvw move now

abbrev pub reverse_pip : Option ℕ → Option ℕ → Option ℕ
reverse_pip none pgm_pip = pgm_pip
reverse_pip (some q) pgm_pip = none

abbrev pub took : Setting → Answers → SwitchStateSnapshot → Show → Show × Bool → Result
took set ans before s (now, true) =
    let told =
      if same_pip now.pvw_pip s.pgm_pip
      then preview_again set (reverse_pip s.pvw_pip s.pgm_pip)
          (emit (pip_state s.pvw_pip s.pgm_pip) now)
      else now in
    finished (emit executed (followed set s.tally.pvw told))
took set ans before s (now, false) = refused set ans before now

abbrev pub take_now : Setting → Answers → Move → SwitchStateSnapshot → Show → Result
take_now set ans move before s =
    let after = swapped s in
    let new_bg = pgm_bg_of set after in
    persist_mixer_mutation ans.writes after.tally after >>= λ saved. took set ans before s (
      asked_take set ans move s.pvw_pip s.pgm_pip new_bg s
        (tally_now set (some move) after.tally saved))

-- The type of a TAKE that names none is a cut.
unfoldable pub take_command : Setting → Answers → Option ℕ → Move → Show → Result
unfolding strom_transition persist_mixer_mutation restore_switch_state build_tally_payload pgm_bg_of
    snapshot_switch_state take_input_index
take_command set ans named move s =
    take_now set ans (asked move) (snapshot_switch_state s) (with_pip named s)

abbrev pub preview_pad : Setting → Option ℕ → Show → Show
preview_pad set none s = s
preview_pad set (some index) s = if set.live then ask (select_preview (input index)) s else s

unfoldable pub set_pvw : Setting → Answers → String → Show → Result
unfolding persist_mixer_mutation build_tally_payload
set_pvw set ans target s =
    let new_tally : Tally = record { pgm = s.tally.pgm; pvw = some target } in
    persist_mixer_mutation ans.writes new_tally (record s { tally = new_tally; pvw_pip = none })
    >>= λ saved. finished (
        emit executed (
          preview_pad set (set.pad target)
            (emit (pip_state saved.pgm_pip none) (tally_now set none new_tally saved))))

unfoldable pub select_pvw_pip : Setting → Answers → ℕ → Show → Result
unfolding persist_mixer_mutation build_tally_payload
select_pvw_pip set ans p s =
    let new_tally : Tally = record { pgm = s.tally.pgm; pvw = none } in
    persist_mixer_mutation ans.writes new_tally (record s { tally = new_tally; pvw_pip = some p })
    >>= λ saved. finished (
        emit executed (
          preview_again set (some p)
            (emit (pip_state saved.pgm_pip (some p)) (tally_now set none new_tally saved))))

pub data Command : Type 0 where
  cut_to : String → Command
  transition_to : Move → String → Command
  take_pvw : Option ℕ → Move → Command
  preview : String → Command
  preview_pip : ℕ → Command

unfoldable pub dispatch : Setting → Answers → Command → Show → Result
unfolding cut transition take_command set_pvw select_pvw_pip
dispatch set ans (cut_to target) s = cut set ans target s
dispatch set ans (transition_to move target) s = transition set ans move target s
dispatch set ans (take_pvw named move) s = take_command set ans named move s
dispatch set ans (preview target) s = set_pvw set ans target s
dispatch set ans (preview_pip p) s = select_pvw_pip set ans p s
