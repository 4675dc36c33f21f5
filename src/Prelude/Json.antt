-- ===== src/Prelude/Json.antt =====
-- JSON values, and the object literal `{ ...base, ...over }`. Numbers are naturals: the messages
-- modelled carry no others.
use open_live.Prelude.{ℕ, String, Bool, Option, none, some, ◌≡◌, refl, arith, if◌then◌else◌}
use open_live.Prelude.{◌==◌, string_eq, is_some}

mutual
  pub data Json : Type 0 where
    null : Json
    bool : Bool → Json
    num : ℕ → Json
    str : String → Json
    arr : Items → Json
    obj : Fields → Json

  pub data Items : Type 0 where
    nil : Items
    cons : Json → Items → Items

  pub data Fields : Type 0 where
    end : Fields
    field : String → Json → Fields → Fields

unfoldable pub get_field : String → Fields → Option Json
get_field k end = none
get_field k (field j v fs) = if j == k then some v else get_field k fs

-- A property that is assigned again keeps its place.
unfoldable pub set_field : String → Json → Fields → Fields
set_field k v end = field k v end
set_field k v (field j w fs) = if j == k then field j v fs else field j w (set_field k v fs)

unfoldable pub spread : Fields → Fields → Fields
unfolding set_field
spread base end = base
spread base (field k v over) = spread (set_field k v base) over

pub get_field-set_field :
    (k j : String) (v : Json) (fs : Fields)
    → get_field j (set_field k v fs) ≡ (if k == j then some v else get_field j fs)
unfolding get_field set_field
get_field-set_field k j v end = refl
get_field-set_field k j v (field i w fs) = ground (
  arith,
  string_eq.beq_iff k j,
  string_eq.beq_iff i k,
  string_eq.beq_iff i j,
  get_field-set_field k j v fs,
)

-- A field that the second object lacks is read from the first.
pub get_field-spread-none :
    (k : String) (base over : Fields)
    → get_field k over ≡ none
    → get_field k (spread base over) ≡ get_field k base
unfolding get_field spread
get_field-spread-none k base end h = refl
get_field-spread-none k base (field j v over) h =
    ground
      (arith, get_field-spread-none k (set_field j v base) over, get_field-set_field j k v base)

-- An object literal names no property twice.
abbrev pub IsUnique : Fields → Type 0
IsUnique end = Unit {0}
IsUnique (field k v fs) = (get_field k fs ≡ none) × IsUnique fs

pub get_field-spread :
    (k : String) (base over : Fields)
    → IsUnique over
    → get_field k (spread base over)
      ≡ (if is_some (get_field k over) then get_field k over else get_field k base)
unfolding get_field spread
get_field-spread k base end u = refl
get_field-spread k base (field j v over) (fresh, u) = ground (
  arith,
  string_eq.beq_iff j k,
  get_field-spread k (set_field j v base) over u,
  get_field-set_field j k v base,
)
