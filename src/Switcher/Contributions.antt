-- ===== src/Switcher/Contributions.antt =====
-- src/services/automation-contract.ts: the sources that make the program and the preview. A keyer
-- `dsk:N`, an overlay `gfx:ID` and a pad are constructors of one type: no pad is named like the
-- first two. An empty text is not distinguished from a name, since no input has it.
use open_live.Prelude.{
  ℕ, zero, suc, String, Bool, true, false, List, [], ◌∷◌, ◌++◌, Option, none, some, if◌then◌else◌,
  ◌==◌, nat_eq, string_eq, ◌≡◌, ◌↔◌, refl, sym, ◌∙◌, arith, Eq, ◌||◌,
}
use open_live.Prelude.Dict.{has, add, has-add}

pub record PipConfig : Type 0 where
  pub bg : Option ℕ
  pub zones : List (List ℕ)

unfoldable pub get_elem? {ℓ} : {A : Type ℓ} → List A → ℕ → Option A
get_elem? [] i = none
get_elem? (x ∷ xs) zero = some x
get_elem? (x ∷ xs) (suc i) = get_elem? xs i

pub data Layer : Type 0 where
  pad_layer : String → Layer
  dsk_layer : ℕ → Layer
  gfx_layer : String → Layer

abbrev pub layer_beq : Layer → Layer → Bool
layer_beq (pad_layer a) (pad_layer b) = a == b
layer_beq (dsk_layer a) (dsk_layer b) = a == b
layer_beq (gfx_layer a) (gfx_layer b) = a == b
layer_beq _ _ = false

pub layer_beq_iff : (a b : Layer) → (layer_beq a b ≡ true) ↔ (a ≡ b)
layer_beq_iff (pad_layer a) (pad_layer b) = ground (arith, string_eq.beq_iff a b)
layer_beq_iff (pad_layer a) (dsk_layer b) = ground arith
layer_beq_iff (pad_layer a) (gfx_layer b) = ground arith
layer_beq_iff (dsk_layer a) (pad_layer b) = ground arith
layer_beq_iff (dsk_layer a) (dsk_layer b) = ground (arith, nat_eq.beq_iff a b)
layer_beq_iff (dsk_layer a) (gfx_layer b) = ground arith
layer_beq_iff (gfx_layer a) (pad_layer b) = ground arith
layer_beq_iff (gfx_layer a) (dsk_layer b) = ground arith
layer_beq_iff (gfx_layer a) (gfx_layer b) = ground (arith, string_eq.beq_iff a b)

instance abbrev pub layer_eq : Eq Layer
layer_eq = record { beq = layer_beq; beq_iff = layer_beq_iff }

pub data Role : Type 0 where
  main pip_bg pip_inset dsk graphic : Role

pub record Contribution : Type 0 where
  pub source : Layer
  pub role : Role

pub record TallyContributions : Type 0 where
  pub program : List Layer
  pub preview : List Layer
  pub contributions : List Contribution

-- A contribution adds its source to the set.
unfoldable pub set_of : List Contribution → List Layer → List Layer
set_of [] layers = layers
set_of (c ∷ cs) layers = set_of cs (add c.source layers)

abbrev of_role : Role → Layer → Contribution
of_role role source = record { source = source; role = role }

unfoldable pub zone_insets : (ℕ → String) → List ℕ → List Contribution
zone_insets video_in [] = []
zone_insets video_in (n ∷ ns) =
    of_role Role.pip_inset (pad_layer (video_in n)) ∷ zone_insets video_in ns

unfoldable pub pip_zone_sources : (ℕ → String) → List (List ℕ) → List Contribution
unfolding zone_insets
pip_zone_sources video_in [] = []
pip_zone_sources video_in (zone ∷ zones) =
    zone_insets video_in zone ++ pip_zone_sources video_in zones

abbrev config_sources : (ℕ → String) → Option (Option PipConfig) → List Contribution
config_sources video_in none = []
config_sources video_in (some none) = []
config_sources video_in (some (some cfg)) = pip_zone_sources video_in cfg.zones

abbrev with_role : Role → Option String → List Contribution
with_role role none = []
with_role role (some name) = of_role role (pad_layer name) ∷ []

-- The picture on a bus: the background and the insets of a PiP, or the one input.
unfoldable pub bus_contributions :
    (ℕ → String)
    → Option String
    → Option ℕ
    → Option String
    → List (Option PipConfig)
    → List Contribution
unfolding pip_zone_sources get_elem?
bus_contributions video_in name none bg pips = with_role Role.main name
bus_contributions video_in name (some p) bg pips =
    with_role Role.pip_bg bg ++ config_sources video_in (get_elem? pips p)

unfoldable pub dsk_contributions : List (ℕ × Bool) → List Contribution
dsk_contributions [] = []
dsk_contributions ((layer, visible) ∷ rest) =
    let later = dsk_contributions rest in
    if visible then of_role Role.dsk (dsk_layer layer) ∷ later else later

unfoldable pub graphic_contributions : List String → List Contribution
graphic_contributions [] = []
graphic_contributions (id ∷ ids) = of_role Role.graphic (gfx_layer id) ∷ graphic_contributions ids

unfoldable pub compute_tally_contributions :
    (ℕ → String)
    → Option String
    → Option String
    → Option ℕ
    → Option ℕ
    → Option String
    → Option String
    → List (Option PipConfig)
    → List (ℕ × Bool)
    → List String
    → TallyContributions
unfolding bus_contributions dsk_contributions graphic_contributions set_of add
compute_tally_contributions video_in pgm pvw pgm_pip pvw_pip pgm_bg pvw_bg pips dsk_layers
      graphics =
    let all =
      bus_contributions video_in pgm pgm_pip pgm_bg pips
      ++ (dsk_contributions dsk_layers ++ graphic_contributions graphics) in
    record {
      program = set_of all [];
      preview = set_of (bus_contributions video_in pvw pvw_pip pvw_bg pips) [];
      contributions = all;
    }

unfoldable pub is_mixer_input_on_program :
    (ℕ → String)
    → String
    → Option String
    → Option ℕ
    → Option String
    → List (Option PipConfig)
    → Bool
unfolding compute_tally_contributions has
is_mixer_input_on_program video_in name pgm pgm_pip pgm_bg pips =
    has (compute_tally_contributions video_in pgm none pgm_pip none pgm_bg none pips [] []).program
      (pad_layer name)

abbrev any_source : List Contribution → Layer → Bool
any_source [] layer = false
any_source (c ∷ cs) layer = c.source == layer || any_source cs layer

has-set_of :
    (cs : List Contribution) (layers : List Layer) (layer : Layer)
    → has (set_of cs layers) layer ≡ (has layers layer || any_source cs layer)
unfolding set_of
has-set_of [] layers layer = ground arith
has-set_of (c ∷ cs) layers layer =
    has-set_of cs (add c.source layers) layer ∙ ground (arith, has-add c.source layer layers)

any_source-append :
    (xs ys : List Contribution) (layer : Layer)
    → any_source (xs ++ ys) layer ≡ (any_source xs layer || any_source ys layer)
any_source-append [] ys layer = refl
any_source-append (x ∷ xs) ys layer = ground (arith, any_source-append xs ys layer)

any_source-dsk :
    (layers : List (ℕ × Bool)) (name : String)
    → any_source (dsk_contributions layers) (pad_layer name) ≡ false
unfolding dsk_contributions
any_source-dsk [] name = refl
any_source-dsk ((layer, true) ∷ rest) name = any_source-dsk rest name
any_source-dsk ((layer, false) ∷ rest) name = any_source-dsk rest name

any_source-graphic :
    (ids : List String) (name : String)
    → any_source (graphic_contributions ids) (pad_layer name) ≡ false
unfolding graphic_contributions
any_source-graphic [] name = refl
any_source-graphic (id ∷ ids) name = any_source-graphic ids name

-- The ON AIR badge of a guest agrees with the tally: an input is on program by the one exactly if it
-- stands in the program of the other, whatever stands on preview and whatever keyers and overlays
-- are on.
pub on_program-program :
    (video_in : ℕ → String) (name : String) (pgm pvw : Option String) (pgm_pip pvw_pip : Option ℕ)
    (pgm_bg pvw_bg : Option String) (pips : List (Option PipConfig)) (dsk_layers : List (ℕ × Bool))
    (graphics : List String)
    → is_mixer_input_on_program video_in name pgm pgm_pip pgm_bg pips
      ≡ has
          (compute_tally_contributions video_in pgm pvw pgm_pip pvw_pip pgm_bg pvw_bg pips
            dsk_layers graphics).program
          (pad_layer name)
unfolding is_mixer_input_on_program compute_tally_contributions
on_program-program video_in name pgm pvw pgm_pip pvw_pip pgm_bg pvw_bg pips dsk_layers graphics =
    let shown = bus_contributions video_in pgm pgm_pip pgm_bg pips in
    let layer = pad_layer name in
    has-set_of (shown ++ []) [] layer
    ∙ (any_source-append shown [] layer
        ∙ (ground (
          arith,
          any_source-append shown (dsk_contributions dsk_layers ++ graphic_contributions graphics)
              layer,
          any_source-append (dsk_contributions dsk_layers) (graphic_contributions graphics) layer,
          any_source-dsk dsk_layers name,
          any_source-graphic graphics name,
        )
            ∙ sym (
                has-set_of
                  (shown ++ (dsk_contributions dsk_layers ++ graphic_contributions graphics)) []
                  layer)))
