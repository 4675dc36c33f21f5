-- ===== src/Switcher.antt =====
-- src/ws/controller.ts: the switcher of one production: its tally, the PiPs on program and preview,
-- and the commands CUT, TRANSITION, TAKE, SET_PVW and SELECT_PVW_PIP. These run one after the other
-- (`runSerializedSwitcherCommand`), so a command is a function from state to state; the answers of
-- the database and of Strom are its arguments. What the production sends and what it asks of Strom
-- are lists, oldest first. `executed` is the acknowledgement, sent where a command has an id, and
-- `rejected` the NACK or the ERROR frame.
pub mod Contributions
pub mod Commands
pub mod Holds
pub mod Exclusive
pub mod Rollback
pub mod Unsaved
pub mod Empty
pub mod Buses
pub mod Sync
pub mod Takes
pub mod Refines
pub mod Tests
use open_live.Prelude.{
  ℕ, zero, suc, ◌+◌, String, Bool, true, false, not, List, [], ◌∷◌, ◌++◌, Option, none, some,
  is_some, get_or, if◌then◌else◌, ◌==◌, nat_eq, string_eq, ◌&&◌,
}
use open_live.Tally.{Tally}
use open_live.Gpu.Settle.{Write, stored, conflict, failed}
use open_live.Switcher.Contributions.{
  PipConfig, get_elem?, Layer, Contribution, TallyContributions, compute_tally_contributions,
}

-- `live` is `stromFlowId && mixerBlockId`, `audio` is `stromFlowId && audioBlockId`; `pad` is
-- `mixerInputToStromPad` with the map of the document, and `video_in` writes the name of a pad.
pub record Setting : Type 0 where
  pub live : Bool
  pub audio : Bool
  pub pad : String → Option ℕ
  pub video_in : ℕ → String
  pub dsk_layers : List (ℕ × Bool)
  pub active_graphics : List String

-- What the awaits of a command come back with. A write answers for the read before it too.
pub record Answers : Type 0 where
  pub writes : ℕ → Write
  pub rollback_writes : ℕ → Write
  pub preview_accepted : Bool
  pub take_accepted : Bool

pub record TallyPayload : Type 0 where
  pub pgm : Option String
  pub pvw : Option String
  pub pgm_bg : Option String
  pub pgm_pip : Option ℕ
  pub pvw_pip : Option ℕ
  pub contributions : TallyContributions

-- A transition as it is asked of Strom, and as a TALLY message tells of it.
pub record Move : Type 0 where
  pub transition_type : String
  pub duration_ms : Option ℕ

pub data Event : Type 0 where
  tally_event : TallyPayload → Option Move → Event
  pip_state : Option ℕ → Option ℕ → Event
  executed rejected : Event

-- A source of Strom's preview: a compact pad or a PiP.
pub data Source : Type 0 where
  input : ℕ → Source
  pip : ℕ → Source

pub data Call : Type 0 where
  select_preview : Source → Call
  take : ℕ → ℕ → Move → Call
  follow_audio : Option String → Call

pub record Show : Type 0 where
  pub tally : Tally
  pub pgm_pip : Option ℕ
  pub pvw_pip : Option ℕ
  pub pips : List (Option PipConfig)
  pub stored_tally : Tally
  pub events : List Event
  pub calls : List Call

-- A handler returns, or an error reaches the catch-all of the socket.
pub data Result : Type 0 where
  finished : Show → Result
  thrown : Show → Result

infixl 5 ◌>>=◌
abbrev pub ◌>>=◌ : Result → (Show → Result) → Result
finished s >>= f = f s
thrown s >>= f = thrown s

abbrev pub state_of : Result → Show
state_of (finished s) = s
state_of (thrown s) = s

abbrev pub emit : Event → Show → Show
emit e s = record s { events = s.events ++ e ∷ [] }

abbrev pub ask : Call → Show → Show
ask c s = record s { calls = s.calls ++ c ∷ [] }

-- `configs?.[pip]?.bg`.
abbrev pub bg_of : Option (Option PipConfig) → Option ℕ
bg_of none = none
bg_of (some none) = none
bg_of (some (some cfg)) = cfg.bg

abbrev pub pad_name : Setting → Option ℕ → Option String
pad_name set none = none
pad_name set (some bg) = some (set.video_in bg)

unfoldable pub pip_bg_input : Setting → Option ℕ → Show → Option String
unfolding get_elem?
pip_bg_input set none s = none
pip_bg_input set (some p) s = pad_name set (bg_of (get_elem? s.pips p))

unfoldable pub pgm_bg_of : Setting → Show → Option String
unfolding pip_bg_input
pgm_bg_of set s = pip_bg_input set s.pgm_pip s

unfoldable pub build_tally_payload : Setting → Tally → Show → TallyPayload
unfolding pgm_bg_of pip_bg_input compute_tally_contributions
build_tally_payload set tally s = record {
  pgm = tally.pgm;
  pvw = tally.pvw;
  pgm_bg = pgm_bg_of set s;
  pgm_pip = s.pgm_pip;
  pvw_pip = s.pvw_pip;
  contributions =
      compute_tally_contributions set.video_in tally.pgm tally.pvw s.pgm_pip s.pvw_pip
        (pgm_bg_of set s) (pip_bg_input set s.pvw_pip s) s.pips set.dsk_layers set.active_graphics;
}

abbrev pub tally_now : Setting → Option Move → Tally → Show → Show
tally_now set move tally s = emit (tally_event (build_tally_payload set tally s) move) s

unfoldable pub is_already_on_program : String → Show → Bool
is_already_on_program target s = elim s.pgm_pip [
  | some p ↦ false
  | none ↦ elim s.tally.pgm [ none ↦ false | some pgm ↦ pgm == target ]
]

unfoldable pub rebroadcast_mixer_state : Setting → Show → Show
unfolding build_tally_payload
rebroadcast_mixer_state set s = emit (pip_state s.pgm_pip s.pvw_pip) (tally_now set none s.tally s)

abbrev pub max_db_write_retries : ℕ
max_db_write_retries = 3

-- `persistMixerMutation` with the mutation that replaces the tally: a conflict is tried again, and
-- given up in silence at the last attempt; another error is thrown.
unfoldable pub persist_loop : ℕ → (ℕ → Write) → ℕ → Tally → Show → Result
persist_loop zero writes attempt tally s = finished s
persist_loop (suc left) writes attempt tally s =
    let again = persist_loop left writes (attempt + 1) tally s in
    elim (writes attempt) [
      | stored ↦ finished (record s { stored_tally = tally })
      | conflict ↦ again
      | failed ↦ thrown s
    ]

unfoldable pub persist_mixer_mutation : (ℕ → Write) → Tally → Show → Result
unfolding persist_loop
persist_mixer_mutation writes tally s = persist_loop max_db_write_retries writes 0 tally s

abbrev pub take_to : Setting → Bool → Option String → ℕ → Move → Show → Show × Bool
take_to set accepted from to_index move s =
    let from_index = get_or (elim from [ none ↦ none | some f ↦ set.pad f ]) to_index in
    (ask (take from_index to_index move) (ask (select_preview (input to_index)) s), accepted)

abbrev pub take_to_pad : Setting → Bool → Option String → Option ℕ → Move → Show → Show × Bool
take_to_pad set accepted from none move s = (s, true)
take_to_pad set accepted from (some to_index) move s = take_to set accepted from to_index move s

-- A refused preview is not fatal, so only the answer to the take counts.
unfoldable pub strom_transition :
    Setting → Answers → Option String → Option String → Move → Show → Show × Bool
strom_transition set ans from none move s = (s, true)
strom_transition set ans from (some target) move s =
    if set.live then take_to_pad set ans.take_accepted from (set.pad target) move s else (s, true)

-- `takeInputIndices`.
unfoldable pub take_input_index : Setting → Option String → ℕ
take_input_index set none = 0
take_input_index set (some name) = get_or (set.pad name) 0

pub record SwitchStateSnapshot : Type 0 where
  pub tally : Tally
  pub pgm_pip : Option ℕ
  pub pvw_pip : Option ℕ

unfoldable pub snapshot_switch_state : Show → SwitchStateSnapshot
snapshot_switch_state s = record { tally = s.tally; pgm_pip = s.pgm_pip; pvw_pip = s.pvw_pip }

abbrev pub restored : SwitchStateSnapshot → Show → Show
restored snap s = record s { tally = snap.tally; pgm_pip = snap.pgm_pip; pvw_pip = snap.pvw_pip }

unfoldable pub restore_switch_state : Setting → (ℕ → Write) → SwitchStateSnapshot → Show → Result
unfolding persist_mixer_mutation build_tally_payload
restore_switch_state set writes snap s =
    persist_mixer_mutation writes snap.tally (restored snap s) >>= λ kept.
    finished (emit (pip_state snap.pgm_pip snap.pvw_pip) (tally_now set none snap.tally kept))
