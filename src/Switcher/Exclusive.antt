-- ===== src/Switcher/Exclusive.antt =====
-- src/ws/controller.ts: no bus of the switcher has an input and a PiP at once.
use open_live.Prelude.{
  ℕ, String, false, Option, none, some, is_some, ◌≡◌, refl, ap, arith, ◌&&◌, if-holds,
}
use open_live.Tally.{Tally}
use open_live.Switcher.{
  Setting, Answers, Move, Show, Result, state_of, pgm_bg_of, tally_now, is_already_on_program,
  rebroadcast_mixer_state, persist_mixer_mutation, strom_transition, SwitchStateSnapshot,
  snapshot_switch_state,
}
use open_live.Switcher.Commands.{
  displace, switched, from_pad, switch_to, taken_off, take_pip_off_to_background, to_real_source,
  cut, transition, with_pip, swapped, asked_take, took, take_now, take_command, set_pvw,
  select_pvw_pip, preview_pad, Command, dispatch, is_name, asked,
}
use open_live.Switcher.Commands.Command.{cut_to, transition_to, take_pvw, preview, preview_pip}
use open_live.Switcher.Holds.{
  bind-Holds, persist-Holds, strom_transition-Holds, switched-Holds, taken_off-Holds,
  asked_take-Holds, took-Holds, preview_again-Holds,
}

-- Not both a PiP and an input, on program and on preview.
abbrev pub Apart : Tally → Option ℕ → Option ℕ → Type 0
Apart tally pgm_pip pvw_pip =
    ((is_some pgm_pip && is_some tally.pgm) ≡ false)
    × ((is_some pvw_pip && is_some tally.pvw) ≡ false)

abbrev pub IsExclusive : Show → Type 0
IsExclusive s = Apart s.tally s.pgm_pip s.pvw_pip

displace-Apart :
    (target : String) (pgm pvw : Option String) (pgm_pip pvw_pip : Option ℕ) (s : Show)
    → ((is_some pgm_pip && is_some pgm) ≡ false)
    → s.pgm_pip ≡ pgm_pip
    → s.tally ≡ record { pgm = some target; pvw = pgm }
    → s.pvw_pip ≡ pvw_pip
    → IsExclusive (displace pgm_pip pvw_pip s).0
displace-Apart target pgm pvw (some p) pvw_pip s h e t q = ground (arith, ap (λ t. t.pvw) t)
displace-Apart target pgm pvw none (some q) s h e t q' = ground arith
displace-Apart target pgm pvw none none s h e t q = ground arith

switch_to-IsExclusive :
    (set : Setting) (ans : Answers) (move : Move) (told : Option Move) (target : String) (s : Show)
    → IsExclusive s
    → IsExclusive (state_of (switch_to set ans move told target s))
unfolding switch_to snapshot_switch_state
switch_to-IsExclusive set ans move told target s x =
    let new_tally : Tally = record { pgm = some target; pvw = s.tally.pgm } in
    let next : Show = record s { tally = new_tally } in
    let moved = (displace s.pgm_pip s.pvw_pip next).0 in
    let event = (displace s.pgm_pip s.pvw_pip next).1 in
    bind-Holds Apart (persist_mixer_mutation ans.writes new_tally moved)
      (λ saved. switched set ans (snapshot_switch_state s) s.pgm_pip event target (
        strom_transition set ans (from_pad set s) (some target) move
          (tally_now set told new_tally saved)))
      (persist-Holds Apart ans.writes new_tally moved
        (displace-Apart target s.tally.pgm s.tally.pvw s.pgm_pip s.pvw_pip next x.0 refl refl refl))
      (λ saved h.
        switched-Holds Apart set ans (snapshot_switch_state s) s.pgm_pip event target _ x (
          strom_transition-Holds Apart set ans (from_pad set s) (some target) move
            (tally_now set told new_tally saved) h))

take_pip_off-IsExclusive :
    (set : Setting) (ans : Answers) (move : Move) (told : Option Move) (target : String) (p : ℕ)
    (s : Show)
    → IsExclusive s
    → IsExclusive (state_of (take_pip_off_to_background set ans move told target p s))
unfolding take_pip_off_to_background snapshot_switch_state
take_pip_off-IsExclusive set ans move told target p s x =
    let new_tally : Tally = record { pgm = some target; pvw = none } in
    let moved : Show = record s { tally = new_tally; pgm_pip = none; pvw_pip = some p } in
    bind-Holds Apart (persist_mixer_mutation ans.writes new_tally moved)
      (λ saved. taken_off set ans (snapshot_switch_state s) p (
        strom_transition set ans (some target) (some target) move
          (tally_now set told new_tally saved)))
      (persist-Holds Apart ans.writes new_tally moved (refl, refl))
      (λ saved h.
        taken_off-Holds Apart set ans (snapshot_switch_state s) p
          (strom_transition set ans (some target) (some target) move
            (tally_now set told new_tally saved))
          x
          (strom_transition-Holds Apart set ans (some target) (some target) move
            (tally_now set told new_tally saved) h))

to_real_source-IsExclusive :
    (set : Setting) (ans : Answers) (move : Move) (told : Option Move) (target : String)
    (o : Option ℕ) (s : Show)
    → IsExclusive s
    → IsExclusive (state_of (to_real_source set ans move told target o s))
unfolding rebroadcast_mixer_state
to_real_source-IsExclusive set ans move told target none s x =
    if-holds (λ (r : Result). IsExclusive (state_of r)) (is_already_on_program target s) x
      (switch_to-IsExclusive set ans move told target s x)
to_real_source-IsExclusive set ans move told target (some p) s x =
    let R = λ (r : Result). IsExclusive (state_of r) in
    if-holds R (is_name (pgm_bg_of set s) target)
      (take_pip_off-IsExclusive set ans move told target p s x)
      (if-holds R (is_already_on_program target s) x
        (switch_to-IsExclusive set ans move told target s x))

with_pip-IsExclusive :
    (named : Option ℕ) (s : Show) → IsExclusive s → IsExclusive (with_pip named s)
with_pip-IsExclusive none s x = x
with_pip-IsExclusive (some p) s x = (x.0, refl)

take-IsExclusive :
    (set : Setting) (ans : Answers) (move : Move) (before : SwitchStateSnapshot) (s : Show)
    → Apart before.tally before.pgm_pip before.pvw_pip
    → IsExclusive s
    → IsExclusive (state_of (take_now set ans move before s))
take-IsExclusive set ans move before s old x =
    let after = swapped s in
    bind-Holds Apart (persist_mixer_mutation ans.writes after.tally after)
      (λ saved. took set ans before s (
        asked_take set ans move s.pvw_pip s.pgm_pip (pgm_bg_of set after) s
          (tally_now set (some move) after.tally saved)))
      (persist-Holds Apart ans.writes after.tally after (x.1, x.0))
      (λ saved h. took-Holds Apart set ans before s _ old (
        asked_take-Holds Apart set ans move s.pvw_pip s.pgm_pip (pgm_bg_of set after) s
          (tally_now set (some move) after.tally saved) h))

preview_pad-IsExclusive :
    (set : Setting) (o : Option ℕ) (s : Show) → IsExclusive s → IsExclusive (preview_pad set o s)
preview_pad-IsExclusive set none s x = x
preview_pad-IsExclusive set (some index) s x = if-holds IsExclusive set.live x x

-- Whatever a switcher command meets - a source on air already, a PiP to displace, a write that fails,
-- a refusal by Strom - it leaves no bus with an input and a PiP at once, if it found none so.
pub dispatch-IsExclusive :
    (set : Setting) (ans : Answers) (c : Command) (s : Show)
    → IsExclusive s
    → IsExclusive (state_of (dispatch set ans c s))
unfolding dispatch cut transition take_command set_pvw select_pvw_pip
dispatch-IsExclusive set ans (cut_to target) s x =
    to_real_source-IsExclusive set ans _ none target s.pgm_pip s x
dispatch-IsExclusive set ans (transition_to move target) s x =
    to_real_source-IsExclusive set ans (asked move) (some move) target s.pgm_pip s x
dispatch-IsExclusive set ans (take_pvw named move) s x =
    take-IsExclusive set ans (asked move) (snapshot_switch_state s) (with_pip named s) x
      (with_pip-IsExclusive named s x)
dispatch-IsExclusive set ans (preview target) s x =
    let new_tally : Tally = record { pgm = s.tally.pgm; pvw = some target } in
    let next : Show = record s { tally = new_tally; pvw_pip = none } in
    bind-Holds Apart (persist_mixer_mutation ans.writes new_tally next) _
      (persist-Holds Apart ans.writes new_tally next (x.0, refl))
      (λ saved h. preview_pad-IsExclusive set (set.pad target) _ h)
dispatch-IsExclusive set ans (preview_pip p) s x =
    let new_tally : Tally = record { pgm = s.tally.pgm; pvw = none } in
    let next : Show = record s { tally = new_tally; pvw_pip = some p } in
    bind-Holds Apart (persist_mixer_mutation ans.writes new_tally next) _
      (persist-Holds Apart ans.writes new_tally next (x.0, refl))
      (λ saved h. preview_again-Holds Apart set (some p) _ h)
