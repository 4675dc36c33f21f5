-- ===== src/Pads.antt =====
-- src/lib/mixer-input-map.ts: the translation between stored pads and the compact pads of a live
-- vision mixer. A mixer input is given by the number that its name `video_in_N` ends in, and the map
-- `Record<string, number>` by these.
use open_live.Prelude.{
  ℕ, zero, suc, ◌+◌, List, [], ◌∷◌, Option, none, some, get_or, nat_eq, map, max,
}
use open_live.Prelude.Dict.{lookup}

abbrev pub InputMap : Type 0
InputMap = List (ℕ × ℕ)

-- The number of a name, or `none` for a name of another form.
pub record MixerInput : Type 0 where
  pub number : Option ℕ

unfoldable pub stored_pad_index : MixerInput → Option ℕ
stored_pad_index input = input.number

unfoldable pub guest_slot_studio_input_number : MixerInput → Option ℕ
unfolding stored_pad_index
guest_slot_studio_input_number input = elim (stored_pad_index input) [
  | none ↦ none
  | some n ↦ some (n + 1)
]

unfoldable pub stored_pad_to_strom_pad : ℕ → Option InputMap → ℕ
stored_pad_to_strom_pad stored_index none = stored_index
stored_pad_to_strom_pad stored_index (some m) = get_or (lookup stored_index m) stored_index

-- A name of another form stands in no map here.
unfoldable pub mixer_input_to_strom_pad : MixerInput → Option InputMap → Option ℕ
unfolding stored_pad_index stored_pad_to_strom_pad
mixer_input_to_strom_pad input m = elim (stored_pad_index input) [
  | none ↦ none
  | some n ↦ some (stored_pad_to_strom_pad n m)
]

unfoldable pub get_elem? {ℓ} : {A : Type ℓ} → List A → ℕ → Option A
get_elem? [] i = none
get_elem? (x ∷ xs) zero = some x
get_elem? (x ∷ xs) (suc i) = get_elem? xs i

-- One more than the highest stored pad: the length that the assignments give the array.
unfoldable pub stored_length : InputMap → ℕ
stored_length [] = 0
stored_length ((stored, compact_idx) ∷ m) = max (stored + 1) (stored_length m)

-- The array by its indices: each stored pad has the element of its compact pad, and any other index
-- is a hole, `null`.
unfoldable pub expand_from {ℓ} : {A : Type ℓ} → List A → InputMap → ℕ → ℕ → List (Option A)
unfolding get_elem?
expand_from compact m index zero = []
expand_from compact m index (suc left) =
    elim (lookup index m) [ none ↦ none | some compact_idx ↦ get_elem? compact compact_idx ]
    ∷ expand_from compact m (index + 1) left

unfoldable pub expand_to_stored_pad_index {ℓ} :
    {A : Type ℓ} → List A → Option InputMap → List (Option A)
unfolding expand_from stored_length
expand_to_stored_pad_index compact none = map some compact
expand_to_stored_pad_index compact (some m) = expand_from compact m 0 (stored_length m)
