-- ===== src/Prelude/Tests.antt =====
-- Boolean tests on the native numbers, the conditional, and equality of keys as an interface.
use Prim.Native.Nat.{ℕ, ◌≤◌, ◌<◌, compare, Ordering}
use Prim.Native.String.{String}
use mathlib.Core.Path.{◌≡◌, refl}
use mathlib.Core.Logic.{◌↔◌, ◌⊎◌, inl, inr}
use mathlib.Core.Bool.{Bool, true, false}
use mathlib.Core.Option.{Option, none, some}
use native.Mathlib.Omega.{arith}
use text.Mathlib.Text.{◌==◌ as str_eq}
use text.Mathlib.TextEquality.{eq_iff}

abbrev pub ltb : ℕ → ℕ → Bool
ltb a b = elim (compare a b) [ Ordering.lt ↦ true | _ ↦ false ]

abbrev pub leb : ℕ → ℕ → Bool
leb a b = elim (compare a b) [ Ordering.gt ↦ false | _ ↦ true ]

abbrev pub nat_beq : ℕ → ℕ → Bool
nat_beq a b = elim (compare a b) [ Ordering.eq ↦ true | _ ↦ false ]

infix 1 if◌then◌else◌
abbrev pub if◌then◌else◌ {ℓ} : {A : Type ℓ} → Bool → A → A → A
if true then x else y = x
if false then x else y = y

pub ltb→lt : (a b : ℕ) → ltb a b ≡ true → a < b
ltb→lt a b h = ground arith

pub lt→ltb : (a b : ℕ) → a < b → ltb a b ≡ true
lt→ltb a b h = ground arith

pub leb→le : (a b : ℕ) → leb a b ≡ true → a ≤ b
leb→le a b h = ground arith

pub le→leb : (a b : ℕ) → a ≤ b → leb a b ≡ true
le→leb a b h = ground arith

pub nat_beq_iff : (a b : ℕ) → (nat_beq a b ≡ true) ↔ (a ≡ b)
nat_beq_iff a b = ground arith

pub ruleset tests = (arith, ltb→lt, lt→ltb, leb→le, le→leb)

-- A Boolean test of equality, `===` of the source.
pub record Eq {ℓ} (K : Type ℓ) : Type ℓ where
  pub beq : K → K → Bool
  pub beq_iff : (x y : K) → (beq x y ≡ true) ↔ (x ≡ y)

instance abbrev pub string_eq : Eq String
string_eq = record { beq_iff = eq_iff; beq = str_eq }

instance abbrev pub nat_eq : Eq ℕ
nat_eq = record { beq_iff = nat_beq_iff; beq = nat_beq }

abbrev pub ◌==◌ {ℓ} : {K : Type ℓ} ⦃e : Eq K⦄ → K → K → Bool
◌==◌ ⦃e⦄ = e.beq

infix 50 ◌==◌
pub ==_refl {ℓ} : {K : Type ℓ} ⦃e : Eq K⦄ (a : K) → (a == a) ≡ true
==_refl ⦃e⦄ a = (e.beq_iff a a).1 refl

-- To split on a computed value and keep the equation.
pub Bool-cases : (b : Bool) → (b ≡ true) ⊎ (b ≡ false)
Bool-cases true = inl refl
Bool-cases false = inr refl

pub Option-cases {ℓ} : {A : Type ℓ} (o : Option A) → (o ≡ none) ⊎ ((a : A) × (o ≡ some a))
Option-cases none = inl refl
Option-cases (some a) = inr (a, refl)

-- What holds of both branches holds of the conditional.
pub if-holds {κ ℓ} :
    {A : Type ℓ} (P : A → Type κ) (b : Bool) {yes no : A} → P yes → P no → P (if b then yes else no)
if-holds P true p q = p
if-holds P false p q = q
