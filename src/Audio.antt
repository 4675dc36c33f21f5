-- ===== src/Audio.antt =====
-- src/lib/audio-channels.ts and src/lib/return-feeds.ts: the numbers of the audio channels and of
-- the return buses of guests, and the levels of the sends into a return. The property name
-- `ch{N}_aux{M}_level` is the pair of its two numbers, and a level of 1.0 or 0.0 is 1 or 0.
pub mod Order
pub mod Channels
pub mod Sends
pub mod Buses
pub mod Picture
pub mod Tests
use open_live.Prelude.{
  ℕ, zero, suc, ◌+◌, ◌-◌, ◌*◌, String, Bool, true, false, not, List, [], ◌∷◌, ◌++◌, Option, none,
  some, is_some, if◌then◌else◌, ltb, leb, ◌==◌, nat_eq, string_eq, ◌&&◌, ◌||◌, length, ◌↔◌, ◌≡◌,
  keep, find, arith, map, Eq,
}
use open_live.Prelude.Text.{codes, digits_only, after_prefix}
use open_live.Prelude.Dict.{lookup, insert}

abbrev number_after : Option (List ℕ) → Option ℕ
number_after none = none
number_after (some rest) = digits_only rest

abbrev or_later : Option ℕ → Option ℕ → Option ℕ
or_later (some n) later = some n
or_later none later = later

-- The expression `/video_in_(\d+)$/` is tried at each place of the text.
unfoldable pub pad_index_at : List ℕ → Option ℕ
unfolding digits_only after_prefix
pad_index_at [] = none
pad_index_at (c ∷ cs) =
    or_later (number_after (after_prefix (codes "video_in_") (c ∷ cs))) (pad_index_at cs)

unfoldable pub mixer_input_pad_index : String → Option ℕ
unfolding pad_index_at
mixer_input_pad_index mixer_input = pad_index_at (codes mixer_input)

pub data ReturnMode : Type 0 where
  program program_minus : ReturnMode

pub record Assignment : Type 0 where
  pub source_id : String
  pub mixer_input : String
  pub return_feed : Option ReturnMode

-- The order of `sort`, which keeps the order of equal pads.
abbrev pub pad_of : Assignment → ℕ
pad_of a = elim (mixer_input_pad_index a.mixer_input) [ none ↦ 0 | some n ↦ n ]

abbrev pub on_pad : Assignment → Bool
on_pad a = is_some (mixer_input_pad_index a.mixer_input)

unfoldable pub place : Assignment → List Assignment → List Assignment
place a [] = a ∷ []
place a (b ∷ bs) = if leb (pad_of a) (pad_of b) then a ∷ b ∷ bs else b ∷ place a bs

unfoldable pub by_pad : List Assignment → List Assignment
unfolding place
by_pad [] = []
by_pad (a ∷ bs) = place a (by_pad bs)

pub record AudioChannel {ℓ} (S : Type ℓ) : Type ℓ where
  pub channel : ℕ
  pub assignment : Assignment
  pub source : S

pub record ReturnBus {ℓ} (S : Type ℓ) : Type ℓ where
  pub assignment : Assignment
  pub own_channel : ℕ
  pub aux_bus : ℕ
  pub mode : ReturnMode
  pub source : S

module _ {ℓ} {S : Type ℓ} where
  abbrev pub push_channel :
      ℕ → Assignment → Option S → (ℕ → List (AudioChannel S)) → List (AudioChannel S)
  push_channel n a none later = later n
  push_channel n a (some s) later =
      record { channel = n; assignment = a; source = s } ∷ later (n + 1)

  -- `n` channels have been given before.
  unfoldable pub number_channels : (String → Option S) → List Assignment → ℕ → List (AudioChannel S)
  number_channels resolve [] n = []
  number_channels resolve (a ∷ as') n =
      push_channel n a (resolve a.source_id) (number_channels resolve as')

  unfoldable pub assign_audio_channels :
      List Assignment → (String → Option S) → List (AudioChannel S)
  unfolding number_channels by_pad mixer_input_pad_index
  assign_audio_channels assignments resolve =
      number_channels resolve (by_pad (keep on_pad assignments)) 0

  abbrev pub push_bus :
      ℕ → AudioChannel S → Option ReturnMode → (ℕ → List (ReturnBus S)) → List (ReturnBus S)
  push_bus n c none later = later n
  push_bus n c (some mode) later =
      record {
        assignment = c.assignment;
        own_channel = c.channel;
        aux_bus = n + 1;
        mode = mode;
        source = c.source;
      }
      ∷ later (n + 1)

  -- `n` buses stand before: those of the crew and the returns that were given one.
  unfoldable pub number_returns : List (AudioChannel S) → ℕ → List (ReturnBus S)
  number_returns [] n = []
  number_returns (c ∷ cs) n = push_bus n c c.assignment.return_feed (number_returns cs)

  -- Each channel is found in the map that the source makes of the same channels.
  unfoldable pub assign_return_buses :
      List Assignment → (String → Option S) → ℕ → List (ReturnBus S)
  unfolding number_returns assign_audio_channels
  assign_return_buses assignments resolve num_crew_aux_buses =
      number_returns (assign_audio_channels assignments resolve) num_crew_aux_buses

-- `ch{N}_aux{M}_level`.
pub record SendKey : Type 0 where
  pub ch : ℕ
  pub aux : ℕ

abbrev pub key_beq : SendKey → SendKey → Bool
key_beq a b = a.ch == b.ch && a.aux == b.aux

pub key_beq_iff : (a b : SendKey) → (key_beq a b ≡ true) ↔ (a ≡ b)
key_beq_iff a b = ground arith

instance abbrev pub key_eq : Eq SendKey
key_eq = record { beq = key_beq; beq_iff = key_beq_iff }

abbrev pub Levels : Type 0
Levels = List (SendKey × ℕ)

abbrev pub return_send_open : ℕ
return_send_open = 1

abbrev pub return_send_closed : ℕ
return_send_closed = 0

abbrev pub is_minus : ReturnMode → Bool
is_minus program = false
is_minus program_minus = true

abbrev level : Bool → ℕ
level is_open = if is_open then return_send_open else return_send_closed

-- `toMainByChannel.get(ch) === false`.
abbrev is_false : Option Bool → Bool
is_false none = false
is_false (some b) = not b

abbrev pub off_program : Option (List (ℕ × Bool)) → ℕ → Bool
off_program none ch = false
off_program (some to_main) ch = is_false (lookup ch to_main)

unfoldable pub send_level : ℕ → ReturnMode → Option (List (ℕ × Bool)) → ℕ → ℕ
send_level own_channel mode to_main ch =
    let closed_by_mode = ch == own_channel && is_minus mode in
    level (not closed_by_mode && not (off_program to_main ch))

unfoldable pub matrix_loop : ℕ → ℕ → ReturnMode → Option (List (ℕ × Bool)) → ℕ → ℕ → Levels → Levels
unfolding send_level
matrix_loop aux_bus own_channel mode to_main ch zero props = props
matrix_loop aux_bus own_channel mode to_main ch (suc left) props =
    matrix_loop aux_bus own_channel mode to_main (ch + 1) left (
      insert (record { ch = ch + 1; aux = aux_bus }) (send_level own_channel mode to_main ch) props)

unfoldable pub return_send_matrix : ℕ → ℕ → ReturnMode → ℕ → Option (List (ℕ × Bool)) → Levels
unfolding matrix_loop
return_send_matrix aux_bus own_channel mode num_channels to_main =
    matrix_loop aux_bus own_channel mode to_main 0 num_channels []

-- A return bus as the production document stores it.
pub record PersistedReturnBus : Type 0 where
  pub mixer_input : String
  pub aux_bus : ℕ
  pub own_channel : ℕ
  pub mode : ReturnMode

unfoldable pub mirror_level : ℕ → ReturnMode → ℕ → Bool → ℕ
mirror_level own_channel mode ch to_main =
    let closed_by_mode = ch == own_channel && is_minus mode in level (to_main && not closed_by_mode)

unfoldable pub mirror_changes : ℕ → ℕ → ReturnMode → List (ℕ × Bool) → Levels → Levels
unfolding mirror_level
mirror_changes aux_bus own_channel mode [] props = props
mirror_changes aux_bus own_channel mode ((ch, to_main) ∷ changes) props =
    mirror_changes aux_bus own_channel mode changes (
      insert (record { ch = ch + 1; aux = aux_bus }) (mirror_level own_channel mode ch to_main)
        props)

unfoldable pub mirror_persisted_from : List PersistedReturnBus → List (ℕ × Bool) → Levels → Levels
unfolding mirror_changes
mirror_persisted_from [] changes props = props
mirror_persisted_from (r ∷ rs) changes props =
    mirror_persisted_from rs changes (mirror_changes r.aux_bus r.own_channel r.mode changes props)

unfoldable pub mirror_to_main_for_persisted_returns :
    List PersistedReturnBus → List (ℕ × Bool) → Levels
unfolding mirror_persisted_from
mirror_to_main_for_persisted_returns returns changes = mirror_persisted_from returns changes []

module _ {ℓ} {S : Type ℓ} where
  unfoldable pub mirror_from : List (ReturnBus S) → List (ℕ × Bool) → Levels → Levels
  unfolding mirror_changes
  mirror_from [] changes props = props
  mirror_from (r ∷ rs) changes props =
      mirror_from rs changes (mirror_changes r.aux_bus r.own_channel r.mode changes props)

  unfoldable pub mirror_to_main_into_returns : List (ReturnBus S) → List (ℕ × Bool) → Levels
  unfolding mirror_from
  mirror_to_main_into_returns returns changes = mirror_from returns changes []

-- `mixerInputMap` of src/lib/flow-generator.ts: the stored inputs on the compact pads of the mixer.
unfoldable pub number_inputs : List Assignment → ℕ → List (String × ℕ) → List (String × ℕ)
number_inputs [] i m = m
number_inputs (a ∷ rest) i m = number_inputs rest (i + 1) (insert a.mixer_input i m)

unfoldable pub mixer_input_map : List Assignment → List (String × ℕ)
unfolding number_inputs by_pad mixer_input_pad_index
mixer_input_map sources = number_inputs (by_pad (keep on_pad sources)) 0 []

-- The `returnBuses` that src/lib/flow-generator.ts hands on to be stored.
unfoldable pub stored_buses {ℓ} : {S : Type ℓ} → List (ReturnBus S) → List PersistedReturnBus
stored_buses [] = []
stored_buses (r ∷ rs) =
    record {
      mixer_input = r.assignment.mixer_input;
      aux_bus = r.aux_bus;
      own_channel = r.own_channel;
      mode = r.mode;
    }
    ∷ stored_buses rs
