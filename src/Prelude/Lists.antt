-- ===== src/Prelude/Lists.antt =====
-- Lists measured by native numbers, tests over them, and options with a default.
use Prim.Native.Nat.{ℕ, suc, ◌+◌}
use mathlib.Core.Path.{◌≡◌, refl}
use mathlib.Core.Bool.{Bool, true, false, ◌||◌}
use mathlib.Core.Option.{Option, none, some}
use mathlib.Core.Logic.{◌⊎◌}
use mathlib.Core.List.{List, [], ◌∷◌, ◌++◌}
use native.Mathlib.Omega.{arith}
use open_live.Prelude.Tests.{if◌then◌else◌}

-- `o ?? d` of the source.
abbrev pub get_or {ℓ} : {A : Type ℓ} → Option A → A → A
get_or none d = d
get_or (some a) d = a

-- A field of a patch that is spread in only where there is a value.
abbrev pub or_kept {ℓ} : {A : Type ℓ} → Option A → Option A → Option A
or_kept none kept = kept
or_kept (some a) kept = some a

abbrev pub is_some {ℓ} : {A : Type ℓ} → Option A → Bool
is_some none = false
is_some (some a) = true

abbrev pub All {ℓ κ} : {A : Type ℓ} → (A → Type κ) → List A → Type κ
All P [] = Unit
All P (x ∷ xs) = P x × All P xs

-- An element of the list has the property.
abbrev pub Exists {ℓ} : {A : Type ℓ} → (A → Type 0) → List A → Type 0
Exists P [] = ⊥
Exists P (x ∷ xs) = P x ⊎ Exists P xs

pub All-append {ℓ κ} :
    {A : Type ℓ} (P : A → Type κ) (xs ys : List A) → All P xs → All P ys → All P (xs ++ ys)
All-append P [] ys h k = k
All-append P (x ∷ xs) ys (p, h) k = (p, All-append P xs ys h k)

module _ {ℓ} {A : Type ℓ} where
  abbrev pub length : List A → ℕ
  length [] = 0
  length (x ∷ xs) = suc (length xs)

  pub length-append : (xs ys : List A) → length (xs ++ ys) ≡ length xs + length ys
  length-append [] ys = omega arith
  length-append (x ∷ xs) ys = omega (arith, length-append xs ys)

  -- `Array.prototype.filter` and `some`, with a Boolean test.
  abbrev pub keep : (A → Bool) → List A → List A
  keep p [] = []
  keep p (x ∷ xs) = if p x then x ∷ keep p xs else keep p xs

  abbrev pub any : (A → Bool) → List A → Bool
  any p [] = false
  any p (x ∷ xs) = p x || any p xs

  abbrev pub find : (A → Bool) → List A → Option A
  find p [] = none
  find p (x ∷ xs) = if p x then some x else find p xs

  pub find-holds : (p : A → Bool) (xs : List A) (a : A) → find p xs ≡ some a → p a ≡ true
  find-holds p [] a h = ground arith
  find-holds p (x ∷ xs) a h = ground (arith, find-holds p xs a)

  pub find-eq-none : (p : A → Bool) (xs : List A) → any p xs ≡ false → find p xs ≡ none
  find-eq-none p [] h = refl
  find-eq-none p (x ∷ xs) h = ground (arith, find-eq-none p xs)
