-- ===== src/Switcher/Holds.antt =====
-- src/ws/controller.ts: a property of the
-- tally and of the two PiPs is kept by all that only sends, asks or stores.
use open_live.Prelude.{ℕ, zero, suc, ◌+◌, String, Bool, true, false, Option, none, some, if-holds}
use open_live.Tally.{Tally}
use open_live.Gpu.Settle.{Write, stored, conflict, failed}
use open_live.Switcher.{
  Setting, Answers, Move, Show, Result, ◌>>=◌, state_of, emit, persist_loop, persist_mixer_mutation,
  strom_transition, take_to_pad, SwitchStateSnapshot, restore_switch_state, restored,
}
use open_live.Switcher.Event.{rejected, pip_state}
use open_live.Switcher.Result.{finished, thrown}
use open_live.Switcher.Commands.{
  same_pip, switched, announce, preview_again, followed, refused, taken_off, asked_take, took,
  reverse_pip,
}

module _ (P : Tally → Option ℕ → Option ℕ → Type 0) where
  abbrev pub Holds : Show → Type 0
  Holds s = P s.tally s.pgm_pip s.pvw_pip

  pub bind-Holds :
      (r : Result) (f : Show → Result)
      → Holds (state_of r)
      → ((s : Show) → Holds s → Holds (state_of (f s)))
      → Holds (state_of (r >>= f))
  bind-Holds (finished s) f h k = k s h
  bind-Holds (thrown s) f h k = h

  pub persist_loop-Holds :
      (left : ℕ) (writes : ℕ → Write) (attempt : ℕ) (tally : Tally) (s : Show)
      → Holds s
      → Holds (state_of (persist_loop left writes attempt tally s))
  unfolding persist_loop
  persist_loop-Holds zero writes attempt tally s h = h
  persist_loop-Holds (suc left) writes attempt tally s h =
      elim (writes attempt)
        as (λ w. Holds (
          state_of (elim w [
            | stored ↦ finished (record s { stored_tally = tally })
            | conflict ↦ persist_loop left writes (attempt + 1) tally s
            | failed ↦ thrown s
          ]))) [
            | stored ↦ h
            | conflict ↦ persist_loop-Holds left writes (attempt + 1) tally s h
            | failed ↦ h
          ]

  pub persist-Holds :
      (writes : ℕ → Write) (tally : Tally) (s : Show)
      → Holds s
      → Holds (state_of (persist_mixer_mutation writes tally s))
  unfolding persist_mixer_mutation
  persist-Holds writes tally s h = persist_loop-Holds 3 writes 0 tally s h

  pub refused-Holds :
      (set : Setting) (ans : Answers) (before : SwitchStateSnapshot) (s : Show)
      → P before.tally before.pgm_pip before.pvw_pip
      → Holds (state_of (refused set ans before s))
  unfolding restore_switch_state
  refused-Holds set ans before s h =
      bind-Holds (restore_switch_state set ans.rollback_writes before s)
        (λ back. finished (emit rejected back))
        (bind-Holds (persist_mixer_mutation ans.rollback_writes before.tally (restored before s)) _
          (persist-Holds ans.rollback_writes before.tally (restored before s) h) (λ kept k. k))
        (λ back k. k)

  pub strom_transition-Holds :
      (set : Setting) (ans : Answers) (from to : Option String) (move : Move) (s : Show)
      → Holds s
      → Holds (strom_transition set ans from to move s).0
  unfolding strom_transition
  strom_transition-Holds set ans from none move s h = h
  strom_transition-Holds set ans from (some target) move s h =
      if-holds (λ (r : Show × Bool). Holds r.0) set.live
        (elim (set.pad target) as (λ p. Holds (take_to_pad set ans.take_accepted from p move s).0) [
          | none ↦ h
          | some index ↦ h
        ])
        h

  pub followed-Holds :
      (set : Setting) (t : Option String) (s : Show) → Holds s → Holds (followed set t s)
  followed-Holds set t s h = if-holds Holds set.audio h h

  pub preview_again-Holds :
      (set : Setting) (p : Option ℕ) (s : Show) → Holds s → Holds (preview_again set p s)
  preview_again-Holds set none s h = h
  preview_again-Holds set (some p) s h = if-holds Holds set.live h h

  pub announce-Holds :
      (set : Setting) (cur : Option ℕ) (event : Option (Option ℕ)) (s : Show)
      → Holds s
      → Holds (announce set cur event s)
  announce-Holds set cur none s h = h
  announce-Holds set cur (some pvw_pip) s h =
      if-holds Holds (same_pip s.pvw_pip pvw_pip)
        (preview_again-Holds set cur (emit (pip_state none pvw_pip) s) h) h

  pub switched-Holds :
      (set : Setting) (ans : Answers) (before : SwitchStateSnapshot) (cur : Option ℕ)
      (event : Option (Option ℕ)) (target : String) (r : Show × Bool)
      → P before.tally before.pgm_pip before.pvw_pip
      → Holds r.0
      → Holds (state_of (switched set ans before cur event target r))
  switched-Holds set ans before cur event target (s, true) old h =
      followed-Holds set (some target) (announce set cur event s) (announce-Holds set cur event s h)
  switched-Holds set ans before cur event target (s, false) old h =
      refused-Holds set ans before s old

  pub taken_off-Holds :
      (set : Setting) (ans : Answers) (before : SwitchStateSnapshot) (p : ℕ) (r : Show × Bool)
      → P before.tally before.pgm_pip before.pvw_pip
      → Holds r.0
      → Holds (state_of (taken_off set ans before p r))
  taken_off-Holds set ans before p (s, true) old h =
      if-holds Holds (same_pip s.pvw_pip (some p)) h h
  taken_off-Holds set ans before p (s, false) old h = refused-Holds set ans before s old

  pub asked_take-Holds :
      (set : Setting) (ans : Answers) (move : Move) (pvw_pip pgm_pip : Option ℕ)
      (bg : Option String) (s now : Show)
      → Holds now
      → Holds (asked_take set ans move pvw_pip pgm_pip bg s now).0
  asked_take-Holds set ans move (some q) pgm_pip bg s now h =
      let R = λ (r : Show × Bool). Holds r.0 in
      if-holds R set.live (if-holds R ans.preview_accepted h h) h
  asked_take-Holds set ans move none (some p) bg s now h =
      if-holds (λ (r : Show × Bool). Holds r.0) set.live h h
  asked_take-Holds set ans move none none bg s now h =
      strom_transition-Holds set ans s.tally.pgm s.tally.pvw move now h

  pub took-Holds :
      (set : Setting) (ans : Answers) (before : SwitchStateSnapshot) (s : Show) (r : Show × Bool)
      → P before.tally before.pgm_pip before.pvw_pip
      → Holds r.0
      → Holds (state_of (took set ans before s r))
  took-Holds set ans before s (now, true) old h = followed-Holds set s.tally.pvw _ (
      if-holds Holds (same_pip now.pvw_pip s.pgm_pip)
        (preview_again-Holds set (reverse_pip s.pvw_pip s.pgm_pip)
          (emit (pip_state s.pvw_pip s.pgm_pip) now) h)
        h)
  took-Holds set ans before s (now, false) old h = refused-Holds set ans before now old
