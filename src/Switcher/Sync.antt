-- ===== src/Switcher/Sync.antt =====
-- src/ws/controller.ts: the commands of the switcher refine the swaps of the mixer's buses.
use open_live.Prelude.{
  ℕ, String, true, Option, none, some, get_or, ◌≡◌, refl, ap, sym, ◌∙◌, subst, arith, if◌then◌else◌,
  if-holds,
}
use open_live.Tally.{Tally}
use open_live.Switcher.{
  Setting, Answers, Move, Call, Show, state_of, emit, ask, tally_now, strom_transition,
  SwitchStateSnapshot, take_to_pad,
}
use open_live.Switcher.Event.{pip_state}
use open_live.Switcher.Source.{input, pip}
use open_live.Switcher.Call.{select_preview, take, follow_audio}
use open_live.Switcher.Commands.{same_pip, displace, switched, announce, preview_again, followed}
use open_live.Switcher.Buses.{Buses, pair, step, play, play-ask, bus, buses_of, InSync}

module _ (set : Setting) (b : Buses) where
  -- One more request, and the fields that go with it.
  pub ask-InSync :
      (c : Call) (s : Show)
      → step c (buses_of set s) ≡ buses_of set s
      → InSync set b s
      → InSync set b (ask c s)
  ask-InSync c s same e = play-ask c s b ∙ (ap (step c) e ∙ same)

  pub followed-InSync :
      (t : Option String) (s : Show) → InSync set b s → InSync set b (followed set t s)
  followed-InSync t s e = if-holds (InSync set b) set.audio (ask-InSync (follow_audio t) s refl e) e

  pub preview_again-InSync :
      (o : Option ℕ) (s : Show)
      → s.pvw_pip ≡ o
      → InSync set b s
      → InSync set b (preview_again set o s)
  preview_again-InSync none s p e = e
  preview_again-InSync (some q) s p e =
      if-holds (InSync set b) set.live
        (ask-InSync (select_preview (pip q)) s
          (ap
            (λ o. record {
              program = bus set s.pgm_pip s.tally.pgm;
              preview = bus set o s.tally.pvw;
            })
            (sym p))
          e)
        e

  -- The requests of an accepted take to an input: the buses swap, with that input on the preview.
  pub strom_transition-play :
      (ans : Answers) (from : Option String) (target : String) (index : ℕ) (move : Move) (s : Show)
      (old : Buses)
      → set.live ≡ true
      → ans.take_accepted ≡ true
      → set.pad target ≡ some index
      → play s.calls b ≡ old
      → (n : ℕ) × (strom_transition set ans from (some target) move s
          ≡ (ask (take n index move) (ask (select_preview (input index)) s), true))
        × (play (ask (take n index move) (ask (select_preview (input index)) s)).calls b
            ≡ record { program = some (input index); preview = old.program })
  unfolding strom_transition
  strom_transition-play ans from target index move s old live ok at e =
      let n = get_or (elim from [ none ↦ none | some f ↦ set.pad f ]) index in
      (
        n,
        ap
              (λ l.
                if l
                then take_to_pad set ans.take_accepted from (set.pad target) move s
                else (s, true))
              live
            ∙ (ap (λ o. take_to_pad set ans.take_accepted from o move s) at
                ∙ ap (λ k. (ask (take n index move) (ask (select_preview (input index)) s), k)) ok),
        play-ask (take n index move) (ask (select_preview (input index)) s) b
            ∙ ap (step (take n index move)) (
                play-ask (select_preview (input index)) s b
                ∙ ap (step (select_preview (input index))) e),
      )

  pub announce-InSync :
      (cur : Option ℕ) (event : Option ℕ) (s : Show)
      → s.pvw_pip ≡ cur
      → InSync set b s
      → InSync set b (announce set cur (some event) s)
  announce-InSync cur event s p e =
      if-holds (InSync set b) (same_pip s.pvw_pip event)
        (preview_again-InSync cur (emit (pip_state none event) s) p e) e

  -- The buses after a take of `target`: what was on program is on preview.
  pub taken_buses :
      (index : ℕ) (target : String) (pgm_pip pvw_pip : Option ℕ) (pgm pvw : Option String)
      → set.pad target ≡ some index
      → bus set pgm_pip pgm ≡ bus set pvw_pip pvw
      → pair (some (input index)) (bus set pgm_pip pgm)
        ≡ pair (bus set none (some target)) (bus set pvw_pip pvw)
  taken_buses index target pgm_pip pvw_pip pgm pvw at same = ground (arith, at, same)

  -- A switch whose write came back with `kept`, by the PiPs that stood on program and on preview.
  pub switched-InSync :
      (ans : Answers) (move : Move) (told : Option Move) (target : String) (index : ℕ)
      (kept : Tally) (before : SwitchStateSnapshot) (from : Option String) (s : Show)
      (o q : Option ℕ)
      → set.live ≡ true
      → ans.take_accepted ≡ true
      → set.pad target ≡ some index
      → s.pgm_pip ≡ o
      → s.pvw_pip ≡ q
      → InSync set b s
      → let new_tally : Tally = record { pgm = some target; pvw = s.tally.pgm } in
        let moved = displace o q (record s { tally = new_tally }) in
        InSync set b (
          state_of (
            switched set ans before o moved.1 target (
              strom_transition set ans from
                (some target)
                move
                (tally_now set told new_tally (record moved.0 { stored_tally = kept })))))
  switched-InSync ans move told target index kept before from s (some p) q live ok at eo eq e =
      let new_tally : Tally = record { pgm = some target; pvw = s.tally.pgm } in
      let moved : Show = record s {
        tally = new_tally;
        pgm_pip = none;
        pvw_pip = some p;
        stored_tally = kept;
      } in
      let t = tally_now set told new_tally moved in
      let (n, same, shown) =
        strom_transition-play ans from target index move t (buses_of set s) live ok at e in
      let u = ask (take n index move) (ask (select_preview (input index)) t) in
      let sync : InSync set b u =
        shown
        ∙ taken_buses index target s.pgm_pip (some p) s.tally.pgm s.tally.pgm at
            (ap (λ o. bus set o s.tally.pgm) eo) in
      subst
        (λ r. InSync set b (state_of (switched set ans before (some p) (some (some p)) target r)))
        (sym same)
        (followed-InSync (some target) (announce set (some p) (some (some p)) u)
          (announce-InSync (some p) (some p) u refl sync))
  switched-InSync ans move told target index kept before from s none (some q) live ok at eo eq e =
      let new_tally : Tally = record { pgm = some target; pvw = s.tally.pgm } in
      let moved : Show = record s { tally = new_tally; pvw_pip = none; stored_tally = kept } in
      let t = tally_now set told new_tally moved in
      let (n, same, shown) =
        strom_transition-play ans from target index move t (buses_of set s) live ok at e in
      let u = ask (take n index move) (ask (select_preview (input index)) t) in
      let sync : InSync set b u =
        shown
        ∙ (taken_buses index target s.pgm_pip none s.tally.pgm s.tally.pgm at
              (ap (λ o. bus set o s.tally.pgm) eo)
            ∙ ap
                (λ o. record {
                  program = bus set o (some target);
                  preview = bus set none s.tally.pgm;
                })
                (sym eo)) in
      subst (λ r. InSync set b (state_of (switched set ans before none (some none) target r)))
        (sym same)
        (followed-InSync (some target) (announce set none (some none) u)
          (announce-InSync none none u refl sync))
  switched-InSync ans move told target index kept before from s none none live ok at eo eq e =
      let new_tally : Tally = record { pgm = some target; pvw = s.tally.pgm } in
      let moved : Show = record s { tally = new_tally; stored_tally = kept } in
      let t = tally_now set told new_tally moved in
      let (n, same, shown) =
        strom_transition-play ans from target index move t (buses_of set s) live ok at e in
      let u = ask (take n index move) (ask (select_preview (input index)) t) in
      let sync : InSync set b u =
        shown
        ∙ (taken_buses index target s.pgm_pip s.pvw_pip s.tally.pgm s.tally.pgm at
              (ap (λ o. bus set o s.tally.pgm) (eo ∙ sym eq))
            ∙ ap
                (λ o. record {
                  program = bus set o (some target);
                  preview = bus set s.pvw_pip s.tally.pgm;
                })
                (sym eo)) in
      subst (λ r. InSync set b (state_of (switched set ans before none none target r))) (sym same)
        (followed-InSync (some target) u sync)
