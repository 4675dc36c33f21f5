-- ===== src/Switcher/Unsaved.antt =====
-- src/ws/controller.ts: a CUT whose write fails with another error than a conflict.
use open_live.Prelude.{
  ℕ, String, true, false, Option, none, some, ◌≡◌, refl, ap, ◌∙◌, if◌then◌else◌, ==_refl, string_eq,
}
use open_live.Tally.{Tally}
use open_live.Gpu.Settle.{failed}
use open_live.Switcher.{
  Setting, Answers, Move, Show, ◌>>=◌, emit, is_already_on_program, tally_now,
  rebroadcast_mixer_state, persist_loop, persist_mixer_mutation, strom_transition,
  snapshot_switch_state,
}
use open_live.Switcher.Event.{executed}
use open_live.Switcher.Result.{finished, thrown}
use open_live.Switcher.Commands.{displace, switched, from_pad, switch_to, to_real_source, cut}

abbrev plain_cut : Move
plain_cut = record { transition_type = "cut"; duration_ms = none }

on_air :
    (target : String) (s : Show)
    → s.pgm_pip ≡ none
    → s.tally.pgm ≡ some target
    → is_already_on_program target s ≡ true
unfolding is_already_on_program
on_air target s off on = rw (off, on) (==_refl target)

-- A CUT to the input on program asks Strom for nothing.
cut-on_air :
    (set : Setting) (ans : Answers) (target : String) (s : Show)
    → s.pgm_pip ≡ none
    → s.tally.pgm ≡ some target
    → cut set ans target s ≡ finished (emit executed (rebroadcast_mixer_state set s))
unfolding cut
cut-on_air set ans target s off on =
    ap (λ o. to_real_source set ans plain_cut none target o s) off
    ∙ ap
        (λ t.
          if t
          then finished (emit executed (rebroadcast_mixer_state set s))
          else switch_to set ans plain_cut none target s)
        (on_air target s off on)

-- What a switch with no PiP on program leaves in memory before its write.
abbrev pub in_memory : String → Show → Show
in_memory target s =
    (displace none s.pvw_pip
      (record s { tally = record { pgm = some target; pvw = s.tally.pgm } })).0

in_memory_lem :
    (target : String) (s : Show) (q : Option ℕ)
    → s.pgm_pip ≡ none
    → let t =
        (displace none q
          (record s { tally = record { pgm = some target; pvw = s.tally.pgm } })).0 in
      (t.pgm_pip ≡ none)
      × (t.tally ≡ record { pgm = some target; pvw = s.tally.pgm })
      × (t.calls ≡ s.calls)
      × (t.events ≡ s.events)
      × (t.stored_tally ≡ s.stored_tally)
in_memory_lem target s none off = (off, refl, refl, refl, refl)
in_memory_lem target s (some q) off = (off, refl, refl, refl, refl)

switch_to-failed :
    (set : Setting) (ans : Answers) (target : String) (s : Show)
    → s.pgm_pip ≡ none
    → ans.writes 0 ≡ failed
    → switch_to set ans plain_cut none target s ≡ thrown (in_memory target s)
unfolding switch_to persist_mixer_mutation
switch_to-failed set ans target s off lost =
    let new_tally : Tally = record { pgm = some target; pvw = s.tally.pgm } in
    let next : Show = record s { tally = new_tally } in
    ap
      (λ o. persist_loop 3 ans.writes 0 new_tally (displace o s.pvw_pip next).0 >>= λ saved.
        switched set ans (snapshot_switch_state s) s.pgm_pip (displace o s.pvw_pip next).1 target (
          strom_transition set ans (from_pad set s) (some target) plain_cut
            (tally_now set none new_tally saved)))
      off
    ∙ rw (lost, persist_loop) refl

-- Where no PiP is on program and the target is not, a CUT whose write fails is thrown out of the
-- handler with Strom asked for nothing, no message sent and the stored tally unchanged, yet with the
-- target on program in memory: whatever the database and Strom would answer then, the same CUT again
-- is acknowledged as executed without a request to Strom.
pub cut-failed :
    (set : Setting) (ans again : Answers) (target : String) (s : Show)
    → s.pgm_pip ≡ none
    → is_already_on_program target s ≡ false
    → ans.writes 0 ≡ failed
    → let t = in_memory target s in
      (cut set ans target s ≡ thrown t)
      × (t.tally ≡ record { pgm = some target; pvw = s.tally.pgm })
      × (t.calls ≡ s.calls)
      × (t.events ≡ s.events)
      × (t.stored_tally ≡ s.stored_tally)
      × (cut set again target t ≡ finished (emit executed (rebroadcast_mixer_state set t)))
unfolding cut
cut-failed set ans again target s off elsewhere lost =
    let t = in_memory target s in
    let (no_pip, tally, calls, events, kept) = in_memory_lem target s s.pvw_pip off in
    (
      ap (λ o. to_real_source set ans plain_cut none target o s) off
          ∙ (ap
                (λ k.
                  if k
                  then finished (emit executed (rebroadcast_mixer_state set s))
                  else switch_to set ans plain_cut none target s)
                elsewhere
              ∙ switch_to-failed set ans target s off lost),
      tally,
      calls,
      events,
      kept,
      cut-on_air set again target t no_pip (ap (λ (y : Tally). y.pgm) tally),
    )
