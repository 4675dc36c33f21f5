-- ===== src/Switcher/Refines.antt =====
-- src/ws/controller.ts: the commands of the switcher refine the swaps of the mixer's buses: CUT,
-- TRANSITION, the previews and all commands together.
use open_live.Prelude.{
  ℕ, String, Bool, true, Option, none, some, is_some, ◌≡◌, refl, ap, sym, ◌∙◌, subst, arith,
  if◌then◌else◌, ◌||◌, if-holds,
}
use open_live.Tally.{Tally}
use open_live.Switcher.{
  Setting, Answers, Move, Show, Result, ◌>>=◌, state_of, emit, ask, pgm_bg_of, tally_now,
  is_already_on_program, rebroadcast_mixer_state, strom_transition, snapshot_switch_state,
}
use open_live.Switcher.Event.{pip_state, executed}
use open_live.Switcher.Result.{finished}
use open_live.Switcher.Source.{input, pip}
use open_live.Switcher.Call.{select_preview, take}
use open_live.Switcher.Commands.{
  same_pip, displace, switched, preview_again, from_pad, switch_to, taken_off,
  take_pip_off_to_background, to_real_source, cut, transition, set_pvw, select_pvw_pip, preview_pad,
  Command, dispatch, is_name, asked,
}
use open_live.Switcher.Commands.Command.{cut_to, transition_to, take_pvw, preview, preview_pip}
use open_live.Switcher.Buses.{Buses, pair, step, play-ask, bus, buses_of, InSync, persist-finished}
use open_live.Switcher.Sync.{strom_transition-play, taken_buses, switched-InSync}
use open_live.Switcher.Takes.{
  has_pad, IsWilling, take_command-InSync, pad_of_name, pad_index, with_pip-TakeReady,
}

-- The command has something to show.
abbrev pub has_source : Setting → Command → Show → Bool
has_source set (cut_to target) s = has_pad set (some target)
has_source set (transition_to move target) s = has_pad set (some target)
has_source set (take_pvw named move) s =
    is_some named || (is_some s.pvw_pip || (is_some s.pgm_pip || has_pad set s.tally.pvw))
has_source set (preview target) s = has_pad set (some target)
has_source set (preview_pip p) s = true

module _ (set : Setting) (b : Buses) (ans : Answers) (will : IsWilling set ans) where
  switch_to-InSync :
      (move : Move) (told : Option Move) (target : String) (index : ℕ) (s : Show)
      → set.pad target ≡ some index
      → InSync set b s
      → InSync set b (state_of (switch_to set ans move told target s))
  unfolding switch_to
  switch_to-InSync move told target index s at e =
      let new_tally : Tally = record { pgm = some target; pvw = s.tally.pgm } in
      let moved = displace s.pgm_pip s.pvw_pip (record s { tally = new_tally }) in
      let (kept, wrote) = persist-finished ans.writes new_tally moved.0 will.sound in
      subst
        (λ r. InSync set b (
          state_of (
            r >>= λ saved. switched set ans (snapshot_switch_state s) s.pgm_pip moved.1 target (
              strom_transition set ans (from_pad set s) (some target) move
                (tally_now set told new_tally saved)))))
        (sym wrote)
        (switched-InSync set b ans move told target index kept (snapshot_switch_state s)
          (from_pad set s) s s.pgm_pip s.pvw_pip will.live will.takes at refl refl e)

  take_pip_off-InSync :
      (move : Move) (told : Option Move) (target : String) (index p : ℕ) (s : Show)
      → set.pad target ≡ some index
      → s.pgm_pip ≡ some p
      → InSync set b s
      → InSync set b (state_of (take_pip_off_to_background set ans move told target p s))
  unfolding take_pip_off_to_background
  take_pip_off-InSync move told target index p s at on e =
      let new_tally : Tally = record { pgm = some target; pvw = none } in
      let moved : Show = record s { tally = new_tally; pgm_pip = none; pvw_pip = some p } in
      let (kept, wrote) = persist-finished ans.writes new_tally moved will.sound in
      let t = tally_now set told new_tally (record moved { stored_tally = kept }) in
      let (n, same, shown) =
        strom_transition-play set b ans (some target) target index move t (buses_of set s) will.live
          will.takes at e in
      let u = ask (take n index move) (ask (select_preview (input index)) t) in
      let sync : InSync set b u =
        shown
        ∙ taken_buses set b index target s.pgm_pip (some p) s.tally.pgm none at
            (ap (λ o. bus set o s.tally.pgm) on) in
      subst
        (λ r. InSync set b (
          state_of (
            r >>= λ saved. taken_off set ans (snapshot_switch_state s) p (
              strom_transition set ans (some target) (some target) move
                (tally_now set told new_tally saved)))))
        (sym wrote)
        (subst (λ r. InSync set b (state_of (taken_off set ans (snapshot_switch_state s) p r)))
          (sym same) (if-holds (InSync set b) (same_pip (some p) (some p)) sync sync))

  to_real_source-InSync :
      (move : Move) (told : Option Move) (target : String) (index : ℕ) (o : Option ℕ) (s : Show)
      → set.pad target ≡ some index
      → s.pgm_pip ≡ o
      → InSync set b s
      → InSync set b (state_of (to_real_source set ans move told target o s))
  unfolding rebroadcast_mixer_state
  to_real_source-InSync move told target index none s at on e =
      if-holds (λ (r : Result). InSync set b (state_of r)) (is_already_on_program target s) e
        (switch_to-InSync move told target index s at e)
  to_real_source-InSync move told target index (some p) s at on e =
      let R = λ (r : Result). InSync set b (state_of r) in
      if-holds R (is_name (pgm_bg_of set s) target)
        (take_pip_off-InSync move told target index p s at on e)
        (if-holds R (is_already_on_program target s) e
          (switch_to-InSync move told target index s at e))

  set_pvw-InSync :
      (target : String) (index : ℕ) (s : Show)
      → set.pad target ≡ some index
      → InSync set b s
      → InSync set b (state_of (set_pvw set ans target s))
  unfolding set_pvw
  set_pvw-InSync target index s at e =
      let new_tally : Tally = record { pgm = s.tally.pgm; pvw = some target } in
      let moved : Show = record s { tally = new_tally; pvw_pip = none } in
      let (kept, wrote) = persist-finished ans.writes new_tally moved will.sound in
      let told = λ (saved : Show).
        emit (pip_state saved.pgm_pip none) (tally_now set none new_tally saved) in
      let t = told (record moved { stored_tally = kept }) in
      subst
        (λ r. InSync set b (
          state_of (
            r >>= λ saved.
            finished (emit executed (preview_pad set (set.pad target) (told saved))))))
        (sym wrote)
        (subst (λ o. InSync set b (preview_pad set o t)) (sym at)
          (subst (λ l. InSync set b (if l then ask (select_preview (input index)) t else t))
            (sym will.live)
            (play-ask (select_preview (input index)) t b
              ∙ (ap (step (select_preview (input index))) e
                  ∙ ap (pair (bus set s.pgm_pip s.tally.pgm)) (ground (arith, at))))))

  select_pvw_pip-InSync :
      (p : ℕ) (s : Show) → InSync set b s → InSync set b (state_of (select_pvw_pip set ans p s))
  unfolding select_pvw_pip
  select_pvw_pip-InSync p s e =
      let new_tally : Tally = record { pgm = s.tally.pgm; pvw = none } in
      let moved : Show = record s { tally = new_tally; pvw_pip = some p } in
      let (kept, wrote) = persist-finished ans.writes new_tally moved will.sound in
      let told = λ (saved : Show).
        emit (pip_state saved.pgm_pip (some p)) (tally_now set none new_tally saved) in
      let t = told (record moved { stored_tally = kept }) in
      subst
        (λ r. InSync set b (
          state_of
            (r >>= λ saved. finished (emit executed (preview_again set (some p) (told saved))))))
        (sym wrote)
        (subst (λ l. InSync set b (if l then ask (select_preview (pip p)) t else t)) (sym will.live)
          (play-ask (select_preview (pip p)) t b ∙ ap (step (select_preview (pip p))) e))

  -- Where Strom accepts what it is asked and no write fails but by a conflict, each command that has
  -- a source to show - a named input on a pad, or for TAKE a PiP or an input on a pad - brings the
  -- mixer, whose takes swap its two buses, to the very buses that the tally and the PiPs describe
  -- after the command, if they described them before.
  pub dispatch-InSync :
      (c : Command) (s : Show)
      → has_source set c s ≡ true
      → InSync set b s
      → InSync set b (state_of (dispatch set ans c s))
  unfolding dispatch cut transition
  dispatch-InSync (cut_to target) s h e =
      let (name, index, same, at) = pad_index set b ans will (some target) h in
      to_real_source-InSync (record { transition_type = "cut"; duration_ms = none }) none target
        index s.pgm_pip s (pad_of_name set b ans will target index name same at) refl e
  dispatch-InSync (transition_to move target) s h e =
      let (name, index, same, at) = pad_index set b ans will (some target) h in
      to_real_source-InSync (asked move) (some move) target index s.pgm_pip s
        (pad_of_name set b ans will target index name same at) refl e
  dispatch-InSync (take_pvw named move) s h e =
      take_command-InSync set b ans will named move s e
        (with_pip-TakeReady set b ans will named s h e)
  dispatch-InSync (preview target) s h e =
      let (name, index, same, at) = pad_index set b ans will (some target) h in
      set_pvw-InSync target index s (pad_of_name set b ans will target index name same at) e
  dispatch-InSync (preview_pip p) s h e = select_pvw_pip-InSync p s e
