-- ===== src/Prelude/Dict.antt =====
-- A JavaScript `Map` as an association list in insertion order, and a `Set` as a list.
use mathlib.Core.Path.{◌≡◌, refl}
use mathlib.Core.Bool.{Bool, false, ◌||◌}
use mathlib.Core.Option.{Option, none, some}
use mathlib.Core.List.{List, [], ◌∷◌, ◌++◌}
use native.Mathlib.Omega.{arith}
use open_live.Prelude.Tests.{Eq, ◌==◌, if◌then◌else◌}

module _ {ℓ} {K : Type ℓ} ⦃e : Eq K⦄ where
  -- A key that is set again keeps its place.
  module _ {κ} {V : Type κ} where
    unfoldable pub lookup : K → List (K × V) → Option V
    lookup key [] = none
    lookup key ((k, v) ∷ rest) = if k == key then some v else lookup key rest

    unfoldable pub insert : K → V → List (K × V) → List (K × V)
    insert key new [] = (key, new) ∷ []
    insert key new ((k, v) ∷ rest) =
        if k == key then (k, new) ∷ rest else (k, v) ∷ insert key new rest

    unfoldable pub remove : K → List (K × V) → List (K × V)
    remove k [] = []
    remove k ((j, w) ∷ m) = if j == k then remove k m else (j, w) ∷ remove k m

    pub lookup-insert :
        (k j : K) (new : V) (m : List (K × V))
        → lookup j (insert k new m) ≡ (if k == j then some new else lookup j m)
    unfolding lookup insert
    lookup-insert k j new [] = refl
    lookup-insert k j new ((i, w) ∷ m) =
        ground (arith, e.beq_iff k j, e.beq_iff i k, e.beq_iff i j, lookup-insert k j new m)

    pub lookup-remove :
        (k j : K) (m : List (K × V)) → lookup j (remove k m) ≡ (if k == j then none else lookup j m)
    unfolding lookup remove
    lookup-remove k j [] = ground arith
    lookup-remove k j ((i, w) ∷ m) =
        ground (arith, e.beq_iff k j, e.beq_iff i k, e.beq_iff i j, lookup-remove k j m)

    pub lookup-inserted : (k : K) (v : V) (m : List (K × V)) → lookup k (insert k v m) ≡ some v
    lookup-inserted k v m = ground (arith, lookup-insert k k v m, e.beq_iff k k)

    pub lookup-removed : (k : K) (m : List (K × V)) → lookup k (remove k m) ≡ none
    lookup-removed k m = ground (arith, lookup-remove k k m, e.beq_iff k k)

  -- Membership in a `Set`.
  unfoldable pub has : List K → K → Bool
  has [] k = false
  has (x ∷ xs) k = x == k || has xs k

  unfoldable pub add : K → List K → List K
  unfolding has
  add k xs = if has xs k then xs else xs ++ k ∷ []

  unfoldable pub delete : K → List K → List K
  delete k [] = []
  delete k (x ∷ xs) = if x == k then delete k xs else x ∷ delete k xs

  -- No element stands twice.
  abbrev pub Distinct : List K → Type 0
  Distinct [] = Unit {0}
  Distinct (x ∷ xs) = (has xs x ≡ false) × Distinct xs

  pub has-append : (xs ys : List K) (k : K) → has (xs ++ ys) k ≡ (has xs k || has ys k)
  unfolding has
  has-append [] ys k = refl
  has-append (x ∷ xs) ys k = ground (arith, has-append xs ys k)

  pub has-add : (k j : K) (xs : List K) → has (add k xs) j ≡ (k == j || has xs j)
  unfolding add has
  has-add k j xs = ground (arith, has-append xs (k ∷ []) j, e.beq_iff k j, e.beq_iff k k)

  pub has-delete :
      (k j : K) (xs : List K) → has (delete k xs) j ≡ (if k == j then false else has xs j)
  unfolding delete has
  has-delete k j [] = ground arith
  has-delete k j (x ∷ xs) =
      ground (arith, e.beq_iff k j, e.beq_iff x k, e.beq_iff x j, has-delete k j xs)

  pub Distinct-snoc :
      (xs : List K) (k : K) → Distinct xs → has xs k ≡ false → Distinct (xs ++ k ∷ [])
  unfolding has
  Distinct-snoc [] k d h = (refl, tt)
  Distinct-snoc (x ∷ xs) k (f, d) h = (
    ground (arith, has-append xs (k ∷ []) x, e.beq_iff x k, e.beq_iff k x),
    Distinct-snoc xs k d (ground arith),
  )

  pub add-Distinct : (k : K) (xs : List K) → Distinct xs → Distinct (add k xs)
  unfolding add
  add-Distinct k xs d = ground (arith, Distinct-snoc xs k d)

  pub delete-Distinct : (k : K) (xs : List K) → Distinct xs → Distinct (delete k xs)
  unfolding delete
  delete-Distinct k [] d = tt
  delete-Distinct k (x ∷ xs) (f, d) = ground (arith, has-delete k x xs, delete-Distinct k xs d)
