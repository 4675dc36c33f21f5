-- ===== src/Switcher/Rollback.antt =====
-- src/ws/controller.ts: a switch that Strom refuses is undone, and one whose write fails is not.
use open_live.Prelude.{
  ℕ, String, Bool, true, false, Option, none, some, is_some, get_or, ◌≡◌, ◌≢◌, refl, ap, sym, ◌∙◌,
  subst, arith, inl, inr, if◌then◌else◌, ◌||◌, if-holds, Bool-cases, Option-cases, string_eq,
}
use open_live.Tally.{Tally}
use open_live.Gpu.Settle.{Write, stored, failed}
use open_live.Switcher.{
  Setting, Answers, Move, Show, Result, ◌>>=◌, state_of, emit, ask, pgm_bg_of, tally_now,
  is_already_on_program, rebroadcast_mixer_state, persist_loop, persist_mixer_mutation,
  strom_transition, take_to_pad, snapshot_switch_state, restore_switch_state, restored,
}
use open_live.Switcher.Event.{pip_state, rejected}
use open_live.Switcher.Result.{finished}
use open_live.Switcher.Source.{input}
use open_live.Switcher.Call.{select_preview, take}
use open_live.Switcher.Commands.{
  displace, switched, refused, from_pad, switch_to, taken_off, take_pip_off_to_background,
  to_real_source, cut, transition, with_pip, swapped, asked_take, took, take_now, take_command,
  Command, dispatch, is_name, asked,
}
use open_live.Switcher.Commands.Command.{cut_to, transition_to, take_pvw, preview, preview_pip}
use open_live.Switcher.Buses.{persist-finished}
use open_live.Switcher.Takes.{has_pad}
use open_live.Switcher.Refines.{has_source}

-- Strom is there and refuses the take. The writes come back, and the first one of the rollback lands.
pub record IsRefusing (set : Setting) (ans : Answers) : Type 0 where
  pub live : set.live ≡ true
  pub refuses : ans.take_accepted ≡ false
  pub sound : (n : ℕ) → ans.writes n ≢ failed
  pub undone : ans.rollback_writes 0 ≡ stored

-- The switch state of `s`, in memory and as stored.
abbrev pub AsBefore : Show → Show → Type 0
AsBefore s t =
    (t.tally ≡ s.tally)
    × (t.pgm_pip ≡ s.pgm_pip)
    × (t.pvw_pip ≡ s.pvw_pip)
    × (t.stored_tally ≡ s.tally)

persist-stored :
    (writes : ℕ → Write) (tally : Tally) (s : Show)
    → writes 0 ≡ stored
    → persist_mixer_mutation writes tally s ≡ finished (record s { stored_tally = tally })
unfolding persist_mixer_mutation
persist-stored writes tally s e = rw (e, persist_loop)

module _ (set : Setting) (ans : Answers) (no_take : IsRefusing set ans) where
  refused-AsBefore :
      (s u : Show) → AsBefore s (state_of (refused set ans (snapshot_switch_state s) u))
  unfolding restore_switch_state snapshot_switch_state
  refused-AsBefore s u =
      let snap = snapshot_switch_state s in
      subst
        (λ r. AsBefore s (
          state_of (
            (r >>= λ kept.
            finished
              (emit (pip_state snap.pgm_pip snap.pvw_pip) (tally_now set none snap.tally kept)))
            >>= λ back. finished (emit rejected back))))
        (sym (persist-stored ans.rollback_writes s.tally (restored snap u) no_take.undone))
        (refl, refl, refl, refl)

  strom_transition-refused :
      (from : Option String) (target : String) (move : Move) (s : Show)
      → has_pad set (some target) ≡ true
      → (u : Show) × (strom_transition set ans from (some target) move s ≡ (u, false))
  unfolding strom_transition
  strom_transition-refused from target move s h = elim (Option-cases (set.pad target)) [
    | inl e ↦ absurd (ground (arith, e))
    | inr (index, e) ↦ (
      ask (take (get_or (elim from [ none ↦ none | some f ↦ set.pad f ]) index) index move)
          (ask (select_preview (input index)) s),
      ap
            (λ l.
              if l
              then take_to_pad set ans.take_accepted from (set.pad target) move s
              else (s, true))
            no_take.live
          ∙ (ap (λ o. take_to_pad set ans.take_accepted from o move s) e
              ∙ ap
                  (λ k. (
                    ask
                        (take (get_or (elim from [ none ↦ none | some f ↦ set.pad f ]) index) index
                          move)
                        (ask (select_preview (input index)) s),
                    k,
                  ))
                  no_take.refuses),
    )
  ]

  switch_to-AsBefore :
      (move : Move) (told : Option Move) (target : String) (s : Show)
      → has_pad set (some target) ≡ true
      → AsBefore s (state_of (switch_to set ans move told target s))
  unfolding switch_to
  switch_to-AsBefore move told target s h =
      let new_tally : Tally = record { pgm = some target; pvw = s.tally.pgm } in
      let moved = displace s.pgm_pip s.pvw_pip (record s { tally = new_tally }) in
      let before = snapshot_switch_state s in
      let (kept, wrote) = persist-finished ans.writes new_tally moved.0 no_take.sound in
      let t = tally_now set told new_tally (record moved.0 { stored_tally = kept }) in
      let (u, no_switch) = strom_transition-refused (from_pad set s) target move t h in
      subst
        (λ r. AsBefore s (
          state_of (
            r >>= λ saved. switched set ans before s.pgm_pip moved.1 target (
              strom_transition set ans (from_pad set s) (some target) move
                (tally_now set told new_tally saved)))))
        (sym wrote)
        (subst (λ r. AsBefore s (state_of (switched set ans before s.pgm_pip moved.1 target r)))
          (sym no_switch) (refused-AsBefore s u))

  take_pip_off-AsBefore :
      (move : Move) (told : Option Move) (target : String) (p : ℕ) (s : Show)
      → has_pad set (some target) ≡ true
      → AsBefore s (state_of (take_pip_off_to_background set ans move told target p s))
  unfolding take_pip_off_to_background
  take_pip_off-AsBefore move told target p s h =
      let new_tally : Tally = record { pgm = some target; pvw = none } in
      let moved : Show = record s { tally = new_tally; pgm_pip = none; pvw_pip = some p } in
      let before = snapshot_switch_state s in
      let (kept, wrote) = persist-finished ans.writes new_tally moved no_take.sound in
      let t = tally_now set told new_tally (record moved { stored_tally = kept }) in
      let (u, no_switch) = strom_transition-refused (some target) target move t h in
      subst
        (λ r. AsBefore s (
          state_of (
            r >>= λ saved. taken_off set ans before p (
              strom_transition set ans (some target) (some target) move
                (tally_now set told new_tally saved)))))
        (sym wrote)
        (subst (λ r. AsBefore s (state_of (taken_off set ans before p r))) (sym no_switch)
          (refused-AsBefore s u))

  to_real_source-AsBefore :
      (move : Move) (told : Option Move) (target : String) (o : Option ℕ) (s : Show)
      → has_pad set (some target) ≡ true
      → s.stored_tally ≡ s.tally
      → AsBefore s (state_of (to_real_source set ans move told target o s))
  unfolding rebroadcast_mixer_state
  to_real_source-AsBefore move told target none s h e =
      if-holds (λ (r : Result). AsBefore s (state_of r)) (is_already_on_program target s)
        (refl, refl, refl, e) (switch_to-AsBefore move told target s h)
  to_real_source-AsBefore move told target (some p) s h e =
      let R = λ (r : Result). AsBefore s (state_of r) in
      if-holds R (is_name (pgm_bg_of set s) target) (take_pip_off-AsBefore move told target p s h) (
        if-holds R (is_already_on_program target s) (refl, refl, refl, e)
          (switch_to-AsBefore move told target s h))

  named-refused :
      (from name : Option String) (move : Move) (s : Show)
      → has_pad set name ≡ true
      → (strom_transition set ans from name move s).1 ≡ false
  named-refused from none move s h = cc
  named-refused from (some target) move s h =
      let (u, no_switch) = strom_transition-refused from target move s h in
      ap (λ (r : Show × Bool). r.1) no_switch

  asked_take-refused :
      (move : Move) (s t : Show) (q o : Option ℕ) (bg : Option String)
      → (is_some q || (is_some o || has_pad set s.tally.pvw)) ≡ true
      → (asked_take set ans move q o bg s t).1 ≡ false
  asked_take-refused move s t (some q) o bg h = elim (Bool-cases ans.preview_accepted) [
    | inl e ↦ rw (no_take.live, e, no_take.refuses) refl
    | inr e ↦ rw (no_take.live, e) refl
  ]
  asked_take-refused move s t none (some p) bg h = rw (no_take.live, no_take.refuses) refl
  asked_take-refused move s t none none bg h = named-refused s.tally.pgm s.tally.pvw move t h

  took-AsBefore :
      (s now : Show) (r : Show × Bool)
      → r.1 ≡ false
      → AsBefore s (state_of (took set ans (snapshot_switch_state s) now r))
  took-AsBefore s now (u, false) e = refused-AsBefore s u
  took-AsBefore s now (u, true) e = cc

  take_now-AsBefore :
      (move : Move) (s now : Show)
      → (is_some now.pvw_pip || (is_some now.pgm_pip || has_pad set now.tally.pvw)) ≡ true
      → AsBefore s (state_of (take_now set ans move (snapshot_switch_state s) now))
  take_now-AsBefore move s now h =
      let after = swapped now in
      let (kept, wrote) = persist-finished ans.writes after.tally after no_take.sound in
      let t = tally_now set (some move) after.tally (record after { stored_tally = kept }) in
      subst
        (λ r. AsBefore s (
          state_of (
            r >>= λ saved. took set ans (snapshot_switch_state s) now (
              asked_take set ans move now.pvw_pip now.pgm_pip (pgm_bg_of set after) now
                (tally_now set (some move) after.tally saved)))))
        (sym wrote)
        (took-AsBefore s now
          (asked_take set ans move now.pvw_pip now.pgm_pip (pgm_bg_of set after) now t)
          (asked_take-refused move now t now.pvw_pip now.pgm_pip (pgm_bg_of set after) h))

  take_command-AsBefore :
      (named : Option ℕ) (move : Move) (s : Show)
      → has_source set (take_pvw named move) s ≡ true
      → AsBefore s (state_of (take_command set ans named move s))
  unfolding take_command
  take_command-AsBefore none move s h = take_now-AsBefore (asked move) s s h
  take_command-AsBefore (some p) move s h =
      take_now-AsBefore (asked move) s (with_pip (some p) s) refl

  -- A command that takes: the others only select a preview.
  abbrev pub is_switch : Command → Bool
  is_switch (preview target) = false
  is_switch (preview_pip p) = false
  is_switch other = true

  -- Where Strom refuses the take, CUT, TRANSITION and TAKE with a source to show leave the tally and
  -- the PiPs of program and preview as they were, in memory and as stored, if what was stored agreed
  -- with memory, the writes come back and the first write of the rollback lands.
  pub dispatch-AsBefore :
      (c : Command) (s : Show)
      → is_switch c ≡ true
      → has_source set c s ≡ true
      → s.stored_tally ≡ s.tally
      → AsBefore s (state_of (dispatch set ans c s))
  unfolding dispatch cut transition
  dispatch-AsBefore (cut_to target) s is h e =
      to_real_source-AsBefore (record { transition_type = "cut"; duration_ms = none }) none target
        s.pgm_pip s h e
  dispatch-AsBefore (transition_to move target) s is h e =
      to_real_source-AsBefore (asked move) (some move) target s.pgm_pip s h e
  dispatch-AsBefore (take_pvw named move) s is h e = take_command-AsBefore named move s h
  dispatch-AsBefore (preview target) s is h e = cc
  dispatch-AsBefore (preview_pip p) s is h e = cc
