-- ===== src/Switcher/Tests.antt =====
-- src/ws/controller.ts: a show with two inputs and a PiP, runs of the commands on it, and the theorems
-- at it.
use open_live.Prelude.{
  ℕ, String, true, false, List, [], ◌∷◌, Option, none, some, ◌≡◌, ◌≢◌, refl, arith, if◌then◌else◌,
  ◌==◌, string_eq, nat_eq,
}
use open_live.Prelude.Dict.{has}
use open_live.Tally.{Tally}
use open_live.Gpu.Settle.{stored, conflict, failed}
use open_live.Switcher.{
  Setting, Answers, Move, Source, Call, Show, Result, state_of, emit, rebroadcast_mixer_state,
}
use open_live.Switcher.Event.{executed}
use open_live.Switcher.Source.{input, pip}
use open_live.Switcher.Call.{select_preview, take}
use open_live.Switcher.Result.{finished, thrown}
use open_live.Switcher.Contributions.{
  PipConfig, pad_layer, layer_eq, compute_tally_contributions, is_mixer_input_on_program,
  on_program-program,
}
use open_live.Switcher.Commands.{dispatch, cut, take_command}
use open_live.Switcher.Commands.Command.{cut_to, take_pvw}
use open_live.Switcher.Exclusive.{IsExclusive, dispatch-IsExclusive}
use open_live.Switcher.Buses.{Buses, pair, play, InSync}
use open_live.Switcher.Takes.{IsWilling}
use open_live.Switcher.Refines.{dispatch-InSync}
use open_live.Switcher.Rollback.{IsRefusing, AsBefore, dispatch-AsBefore}
use open_live.Switcher.Unsaved.{in_memory, cut-failed}
use open_live.Switcher.Empty.{take-empty}

abbrev pad_number : String → Option ℕ
pad_number name =
    if name == "video_in_0" then some 0 else if name == "video_in_1" then some 1 else none

abbrev pad_name : ℕ → String
pad_name n = if n == 0 then "video_in_0" else "video_in_1"

abbrev setting : Setting
setting = record {
  live = true;
  audio = false;
  pad = pad_number;
  video_in = pad_name;
  dsk_layers = (0, true) ∷ [];
  active_graphics = "bug" ∷ [];
}

abbrev willing : Answers
willing = record {
  writes = λ n. if n == 0 then conflict else stored;
  rollback_writes = λ n. stored;
  preview_accepted = true;
  take_accepted = true;
}

abbrev refusing : Answers
refusing = record {
  writes = λ n. stored;
  rollback_writes = λ n. stored;
  preview_accepted = true;
  take_accepted = false;
}

abbrev unsaved : Answers
unsaved = record {
  writes = λ n. failed;
  rollback_writes = λ n. stored;
  preview_accepted = true;
  take_accepted = true;
}

abbrev configs : List (Option PipConfig)
configs = some (record { bg = some 0; zones = (1 ∷ []) ∷ [] }) ∷ []

abbrev on_zero : Tally
on_zero = record { pgm = some "video_in_0"; pvw = some "video_in_1" }

abbrev show : Show
show = record {
  tally = on_zero;
  pgm_pip = none;
  pvw_pip = none;
  pips = configs;
  stored_tally = on_zero;
  events = [];
  calls = [];
}

-- The PiP is on program over its background.
abbrev pip_show : Show
pip_show = record {
  tally = record { pgm = none; pvw = some "video_in_1" };
  pgm_pip = some 0;
  pvw_pip = none;
  pips = configs;
  stored_tally = record { pgm = none; pvw = some "video_in_1" };
  events = [];
  calls = [];
}

abbrev plain : Move
plain = record { transition_type = "cut"; duration_ms = none }

abbrev buses : Buses
buses = pair (some (input 0)) (some (input 1))

abbrev pip_buses : Buses
pip_buses = pair (some (pip 0)) (some (input 1))

-- A cut to the background takes the PiP to the preview.
off_program :
    (state_of (dispatch setting willing (cut_to "video_in_0") pip_show)).tally
    ≡ record { pgm = some "video_in_0"; pvw = none }
unfolding dispatch
off_program = refl

cut_calls :
    (state_of (dispatch setting willing (cut_to "video_in_1") show)).calls
    ≡ select_preview (input 1) ∷ take 0 1 plain ∷ []
unfolding dispatch
cut_calls = refl

unfailing : (n : ℕ) → willing.writes n ≢ failed
unfailing n e = ground arith

is_willing : IsWilling setting willing
is_willing = record { live = refl; previews = refl; takes = refl; sound = unfailing }

is_refusing : IsRefusing setting refusing
is_refusing = record { live = refl; refuses = refl; sound = λ n e. cc; undone = refl }

dispatch-IsExclusive_example :
    IsExclusive (state_of (dispatch setting refusing (cut_to "video_in_0") pip_show))
dispatch-IsExclusive_example =
    dispatch-IsExclusive setting refusing (cut_to "video_in_0") pip_show (refl, refl)

dispatch-InSync_example :
    InSync setting pip_buses (state_of (dispatch setting willing (take_pvw none plain) pip_show))
dispatch-InSync_example =
    dispatch-InSync setting pip_buses willing is_willing (take_pvw none plain) pip_show refl refl

dispatch-AsBefore_example :
    AsBefore show (state_of (dispatch setting refusing (take_pvw (some 0) plain) show))
dispatch-AsBefore_example =
    dispatch-AsBefore setting refusing is_refusing (take_pvw (some 0) plain) show refl refl refl

cut-failed_example :
    let t = in_memory "video_in_1" show in
    (cut setting unsaved "video_in_1" show ≡ thrown t)
    × (t.tally ≡ record { pgm = some "video_in_1"; pvw = some "video_in_0" })
    × (t.calls ≡ [])
    × (t.events ≡ [])
    × (t.stored_tally ≡ on_zero)
    × (cut setting willing "video_in_1" t
        ≡ finished (emit executed (rebroadcast_mixer_state setting t)))
unfolding open_live.Switcher.is_already_on_program
cut-failed_example = cut-failed setting unsaved willing "video_in_1" show refl refl refl

on_program-program_example :
    is_mixer_input_on_program pad_name "video_in_1" none (some 0) (some "video_in_0") configs
    ≡ has
        (compute_tally_contributions pad_name none
          (some "video_in_0")
          (some 0)
          none
          (some "video_in_0")
          none
          configs
          ((0, true) ∷ [])
          ("bug" ∷ [])).program
        (pad_layer "video_in_1")
on_program-program_example =
    on_program-program pad_name "video_in_1" none (some "video_in_0") (some 0) none
      (some "video_in_0") none configs ((0, true) ∷ []) ("bug" ∷ [])

abbrev no_preview : Show
no_preview = record {
  tally = record { pgm = some "video_in_0"; pvw = none };
  pgm_pip = none;
  pvw_pip = none;
  pips = configs;
  stored_tally = record { pgm = some "video_in_0"; pvw = none };
  events = [];
  calls = [];
}

take-empty_example :
    (t : Show) × (take_command setting willing none plain no_preview ≡ finished t)
    × (t.tally ≡ record { pgm = none; pvw = some "video_in_0" })
    × (t.pgm_pip ≡ none)
    × (play t.calls buses ≡ buses)
take-empty_example = take-empty setting willing plain buses no_preview refl refl refl unfailing
