-- ===== src/Audio/Tests.antt =====
-- src/lib/audio-channels.ts and src/lib/return-feeds.ts: a production with two sources and two
-- guests, and the theorems at it.
use open_live.Prelude.{
  ℕ, String, Bool, true, false, List, [], ◌∷◌, Option, none, some, ◌≡◌, refl, arith, string_eq, All,
  or_kept,
}
use open_live.Prelude.Dict.{lookup}
use open_live.Audio.{
  Assignment, PersistedReturnBus, assign_audio_channels, assign_return_buses, stored_buses,
  mixer_input_map, return_send_matrix, mirror_to_main_for_persisted_returns, return_send_closed,
  mixer_input_pad_index, key_eq,
}
use open_live.Audio.ReturnMode.{program, program_minus}
use open_live.Audio.Channels.{IsNumbering, assign_audio_channels-IsNumbering}
use open_live.Audio.Picture.{SamePad, assign_audio_channels-SamePad}
use open_live.Audio.Sends.{key, IsShut, changed, mirror-return_send_matrix, program_minus-IsShut}

abbrev sources : List Assignment
sources =
    record { source_id = "cam"; mixer_input = "video_in_2"; return_feed = none }
    ∷ record { source_id = "g1"; mixer_input = "video_in_15"; return_feed = some program_minus }
    ∷ record { source_id = "g2"; mixer_input = "video_in_14"; return_feed = some program }
    ∷ record { source_id = "slides"; mixer_input = "video_in_0"; return_feed = none }
    ∷ []

abbrev resolve : String → Option String
resolve id = some id

abbrev buses : List PersistedReturnBus
buses =
    record { mixer_input = "video_in_14"; aux_bus = 3; own_channel = 2; mode = program }
    ∷ record { mixer_input = "video_in_15"; aux_bus = 4; own_channel = 3; mode = program_minus }
    ∷ []

abbrev guest_bus : PersistedReturnBus
guest_bus = record {
  mixer_input = "video_in_15";
  aux_bus = 4;
  own_channel = 3;
  mode = program_minus;
}

-- Channels 1 and 4 go off and on the program.
abbrev changes : List (ℕ × Bool)
changes = (0, false) ∷ (3, true) ∷ []

two_digits : mixer_input_pad_index "video_in_15" ≡ some 15
unfolding mixer_input_pad_index
two_digits = refl

stored_returns : stored_buses (assign_return_buses sources resolve 2) ≡ buses
unfolding stored_buses assign_return_buses
stored_returns = refl

assign_audio_channels-IsNumbering_example :
    IsNumbering resolve sources (assign_audio_channels sources resolve)
assign_audio_channels-IsNumbering_example = assign_audio_channels-IsNumbering resolve sources

assign_audio_channels-SamePad_example :
    All (SamePad resolve (mixer_input_map sources)) (assign_audio_channels sources resolve)
assign_audio_channels-SamePad_example =
    assign_audio_channels-SamePad resolve sources (refl, (refl, (refl, (refl, tt)))) refl

mirror-return_send_matrix_example :
    or_kept
      (lookup (key 0 4) (mirror_to_main_for_persisted_returns buses changes))
      (lookup (key 0 4) (return_send_matrix 4 3 program_minus 4 (some [])))
    ≡ lookup (key 0 4) (return_send_matrix 4 3 program_minus 4 (some (changed changes [])))
unfolding lookup
mirror-return_send_matrix_example =
    mirror-return_send_matrix buses guest_bus changes [] 4 0 (refl, (refl, tt)) refl
      (refl, (refl, tt)) (omega arith)

program_minus-IsShut_example :
    (lookup (key 3 4) (return_send_matrix 4 3 program_minus 4 (some changes))
      ≡ some return_send_closed)
    × IsShut (lookup (key 3 4) (mirror_to_main_for_persisted_returns buses changes))
unfolding lookup
program_minus-IsShut_example =
    program_minus-IsShut buses guest_bus changes (some changes) 4 (refl, (refl, tt)) refl
      (refl, (refl, tt)) refl (omega arith)
