-- ===== src/Switcher/Takes.antt =====
-- src/ws/controller.ts: TAKE refines the swap of the mixer's buses.
use open_live.Prelude.{
  ℕ, String, Bool, true, false, Option, none, some, is_some, ◌≡◌, ◌≢◌, refl, ap, sym, ◌∙◌, subst,
  arith, inl, inr, if◌then◌else◌, ◌||◌, if-holds, Option-cases,
}
use open_live.Gpu.Settle.{failed}
use open_live.Switcher.{
  Setting, Answers, Move, Show, ◌>>=◌, state_of, emit, ask, pgm_bg_of, tally_now, strom_transition,
  SwitchStateSnapshot, snapshot_switch_state, take_input_index,
}
use open_live.Switcher.Event.{pip_state}
use open_live.Switcher.Source.{input, pip}
use open_live.Switcher.Call.{select_preview, take}
use open_live.Switcher.Commands.{
  same_pip, preview_again, with_pip, swapped, asked_take, took, take_now, take_command, asked,
  reverse_pip, or_else,
}
use open_live.Switcher.Buses.{
  Buses, pair, step, play, play-ask, bus, buses_of, InSync, persist-finished,
}
use open_live.Switcher.Sync.{
  followed-InSync, preview_again-InSync, strom_transition-play, taken_buses,
}

abbrev pub has_pad : Setting → Option String → Bool
has_pad set none = false
has_pad set (some name) = is_some (set.pad name)

-- Strom is there and takes what it is asked, and no write fails but by a conflict.
pub record IsWilling (set : Setting) (ans : Answers) : Type 0 where
  pub live : set.live ≡ true
  pub previews : ans.preview_accepted ≡ true
  pub takes : ans.take_accepted ≡ true
  pub sound : (n : ℕ) → ans.writes n ≢ failed

module _ (set : Setting) (b : Buses) (ans : Answers) (will : IsWilling set ans) where
  -- What a take needs: the program bus is the one described, and so is the preview where no PiP is
  -- named; where no PiP takes part, the preview has an input on a pad.
  abbrev pub TakeReady : Option ℕ → Option ℕ → Show → Type 0
  TakeReady (some q) o s = (play s.calls b).program ≡ bus set s.pgm_pip s.tally.pgm
  TakeReady none (some p) s = InSync set b s
  TakeReady none none s =
      InSync set b s
      × ((target : String) × (index : ℕ) × (s.tally.pvw ≡ some target)
          × (set.pad target ≡ some index))

  -- The requests of the take bring the mixer to the buses swapped.
  abbrev Swaps : Option ℕ → Option ℕ → Move → Show → Show → Type 0
  Swaps q o move s t =
      (u : Show) × (asked_take set ans move q o (pgm_bg_of set (swapped s)) s t ≡ (u, true))
      × InSync set b u
      × (u.pvw_pip ≡ s.pgm_pip)

  asked_take-Swaps :
      (move : Move) (s t : Show) (q o : Option ℕ)
      → s.pvw_pip ≡ q
      → s.pgm_pip ≡ o
      → t.calls ≡ s.calls
      → buses_of set t ≡ buses_of set (swapped s)
      → t.pvw_pip ≡ s.pgm_pip
      → TakeReady q o s
      → Swaps q o move s t
  asked_take-Swaps move s t (some q) o eq eo calls same pvw ready =
      let from = take_input_index set (or_else s.tally.pgm (pgm_bg_of set s)) in
      let to = take_input_index set (pgm_bg_of set (swapped s)) in
      let v = ask (select_preview (pip q)) t in
      let u = ask (take from to move) v in
      let shown : play t.calls b ≡ play s.calls b = ap (λ c. play c b) calls in
      (
        u,
        ap
              (λ l.
                if l
                then (if ans.preview_accepted then (u, ans.take_accepted) else (v, false))
                else (t, true))
              will.live
            ∙ (ap (λ k. if k then (u, ans.take_accepted) else (v, false)) will.previews
                ∙ ap (λ k. (u, k)) will.takes),
        play-ask (take from to move) v b
            ∙ (ap (step (take from to move)) (play-ask (select_preview (pip q)) t b)
                ∙ (ap (λ (c : Buses). pair (some (pip q)) c.program) shown
                    ∙ (ap (λ c. pair (some (pip q)) c) ready
                        ∙ (ap (λ o. pair (bus set o s.tally.pvw) (bus set s.pgm_pip s.tally.pgm))
                              (sym eq)
                            ∙ sym same)))),
        pvw,
      )
  asked_take-Swaps move s t none (some p) eq eo calls same pvw ready =
      let from = take_input_index set (pgm_bg_of set s) in
      let to = take_input_index set s.tally.pvw in
      let u = ask (take from to move) t in
      (
        u,
        ap (λ l. if l then (u, ans.take_accepted) else (t, true)) will.live
            ∙ ap (λ k. (u, k)) will.takes,
        play-ask (take from to move) t b
            ∙ (ap (λ c. step (take from to move) (play c b)) calls
                ∙ (ap (step (take from to move)) ready ∙ sym same)),
        pvw,
      )
  asked_take-Swaps move s t none none eq eo calls same pvw (sync, (target, index, named, at)) =
      let old = buses_of set s in
      let (n, did, shown) =
        strom_transition-play set b ans s.tally.pgm target index move t old will.live will.takes at
          (ap (λ c. play c b) calls ∙ sync) in
      let u = ask (take n index move) (ask (select_preview (input index)) t) in
      (
        u,
        ap (λ name. strom_transition set ans s.tally.pgm name move t) named ∙ did,
        shown
            ∙ (taken_buses set b index target s.pgm_pip s.pgm_pip s.tally.pgm s.tally.pgm at refl
                ∙ (ap (λ name. pair (bus set none name) (bus set s.pgm_pip s.tally.pgm)) (sym named)
                    ∙ (ap (λ o. pair (bus set o s.tally.pvw) (bus set s.pgm_pip s.tally.pgm))
                          (sym eq)
                        ∙ sym same))),
        pvw,
      )

  reverse_pip-le :
      (q o : Option ℕ) (s : Show)
      → s.pvw_pip ≡ o
      → InSync set b s
      → InSync set b (preview_again set (reverse_pip q o) s)
  reverse_pip-le none o s p e = preview_again-InSync set b o s p e
  reverse_pip-le (some q) o s p e = e

  take_now-InSync :
      (move : Move) (before : SwitchStateSnapshot) (s : Show)
      → TakeReady s.pvw_pip s.pgm_pip s
      → InSync set b (state_of (take_now set ans move before s))
  take_now-InSync move before s ready =
      let after = swapped s in
      let (kept, wrote) = persist-finished ans.writes after.tally after will.sound in
      let t = tally_now set (some move) after.tally (record after { stored_tally = kept }) in
      let (u, did, sync, pvw) =
        asked_take-Swaps move s t s.pvw_pip s.pgm_pip refl refl refl refl refl ready in
      let said = emit (pip_state s.pvw_pip s.pgm_pip) u in
      subst
        (λ r. InSync set b (
          state_of (
            r >>= λ saved. took set ans before s (
              asked_take set ans move s.pvw_pip s.pgm_pip (pgm_bg_of set after) s
                (tally_now set (some move) after.tally saved)))))
        (sym wrote)
        (subst (λ r. InSync set b (state_of (took set ans before s r))) (sym did)
          (followed-InSync set b s.tally.pvw _ (
            if-holds (InSync set b) (same_pip u.pvw_pip s.pgm_pip)
              (reverse_pip-le s.pvw_pip s.pgm_pip said pvw sync) sync)))

  pub take_command-InSync :
      (named : Option ℕ) (move : Move) (s : Show)
      → InSync set b s
      → TakeReady (with_pip named s).pvw_pip s.pgm_pip (with_pip named s)
      → InSync set b (state_of (take_command set ans named move s))
  unfolding take_command
  take_command-InSync none move s e ready =
      take_now-InSync (asked move) (snapshot_switch_state s) s ready
  take_command-InSync (some p) move s e ready =
      take_now-InSync (asked move) (snapshot_switch_state s) (with_pip (some p) s) ready

  pub pad_of_name :
      (target : String) (index : ℕ) (name : String)
      → some target ≡ some name
      → set.pad name ≡ some index
      → set.pad target ≡ some index
  pad_of_name target index name same at = subst (λ n. set.pad n ≡ some index) (cc) at

  pub pad_index :
      (name : Option String)
      → has_pad set name ≡ true
      → (target : String) × (index : ℕ) × (name ≡ some target) × (set.pad target ≡ some index)
  pad_index none h = cc
  pad_index (some target) h = elim (Option-cases (set.pad target)) [
    | inl e ↦ absurd (ground (arith, e))
    | inr (index, e) ↦ (target, index, refl, e)
  ]

  TakeReady_lem :
      (q o : Option ℕ) (s : Show)
      → (is_some q || (is_some o || has_pad set s.tally.pvw)) ≡ true
      → InSync set b s
      → TakeReady q o s
  TakeReady_lem (some q) o s h e = ap (λ (c : Buses). c.program) e
  TakeReady_lem none (some p) s h e = e
  TakeReady_lem none none s h e = (e, pad_index s.tally.pvw h)

  pub with_pip-TakeReady :
      (named : Option ℕ) (s : Show)
      → (is_some named || (is_some s.pvw_pip || (is_some s.pgm_pip || has_pad set s.tally.pvw)))
        ≡ true
      → InSync set b s
      → TakeReady (with_pip named s).pvw_pip s.pgm_pip (with_pip named s)
  with_pip-TakeReady none s h e = TakeReady_lem s.pvw_pip s.pgm_pip s h e
  with_pip-TakeReady (some p) s h e = ap (λ (c : Buses). c.program) e
