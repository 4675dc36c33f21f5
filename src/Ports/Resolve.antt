-- ===== src/Ports/Resolve.antt =====
-- What `resolveListenerAddress` of src/services/listener-ports.ts lets through.
use open_live.Prelude.{
  ℕ, ◌≤◌, Bool, true, false, not, ◌||◌, List, [], ◌∷◌, Option, none, some, leb, nat_eq, string_eq,
  ◌==◌, find, ◌≡◌, refl, ◌∙◌, ap, arith, Bool-cases, inl, inr, sym, subst,
}
use open_live.Prelude.Dict.{has}
use open_live.Ports.Listener.{insert_sorted, sorted, lowest_free_port}

has-insert_sorted : (p q : ℕ) (l : List ℕ) → has (insert_sorted p l) q ≡ (p == q || has l q)
unfolding insert_sorted has
has-insert_sorted p q [] = refl
has-insert_sorted p q (x ∷ l) = ground (arith, has-insert_sorted p q l)

pub has-sorted : (l : List ℕ) (q : ℕ) → has (sorted l) q ≡ has l q
unfolding sorted has
has-sorted [] q = refl
has-sorted (p ∷ l) q = has-insert_sorted p q (sorted l) ∙ ap (λ b. p == q || b) (has-sorted l q)

pub Ascending : List ℕ → Type 0
Ascending [] = Unit {0}
Ascending (x ∷ l) = ((q : ℕ) → has l q ≡ true → x ≤ q) × Ascending l

insert_sorted-Ascending : (p : ℕ) (l : List ℕ) → Ascending l → Ascending (insert_sorted p l)
unfolding insert_sorted has Ascending
insert_sorted-Ascending p [] w = ((λ q h. ground (arith, h)), tt)
insert_sorted-Ascending p (x ∷ l) (least, w) = elim (Bool-cases (leb p x)) [
  | inl e ↦ rw e ((λ q h. ground (arith, h, e, least q)), (least, w))
  | inr e ↦ rw e (
    (λ q h. ground (arith, h, e, least q, has-insert_sorted p q l)),
    insert_sorted-Ascending p l w,
  )
]

pub sorted-Ascending : (l : List ℕ) → Ascending (sorted l)
unfolding sorted Ascending
sorted-Ascending [] = tt
sorted-Ascending (p ∷ l) = insert_sorted-Ascending p (sorted l) (sorted-Ascending l)

-- The search of a rising list finds the least element that passes.
unfoldable pub IsLeast : (ℕ → Bool) → List ℕ → Option ℕ → Type 0
IsLeast test l none = (q : ℕ) → has l q ≡ true → test q ≡ false
IsLeast test l (some p) =
    (has l p ≡ true) × (test p ≡ true) × ((q : ℕ) → has l q ≡ true → test q ≡ true → p ≤ q)

skip-IsLeast :
    (test : ℕ → Bool) (x : ℕ) (l : List ℕ) (o : Option ℕ)
    → test x ≡ false
    → IsLeast test l o
    → IsLeast test (x ∷ l) o
unfolding IsLeast has
skip-IsLeast test x l none fails w = λ q h. elim (Bool-cases (x == q)) [
  | inl e ↦ subst (λ y. test y ≡ false) ((nat_eq.beq_iff x q).0 e) fails
  | inr e ↦ w q (ground (arith, h, e))
]
skip-IsLeast test x l (some p) fails (on, passes, least) = (
  ground (arith, on),
  passes,
  λ q h t. elim (Bool-cases (x == q)) [
    | inl e ↦
        let bad : test x ≡ true = subst (λ y. test y ≡ true) (sym ((nat_eq.beq_iff x q).0 e)) t in
        absurd (ground (arith, fails, bad))
    | inr e ↦ least q (ground (arith, h, e)) t
  ],
)

find-IsLeast : (test : ℕ → Bool) (l : List ℕ) → Ascending l → IsLeast test l (find test l)
unfolding IsLeast Ascending has
find-IsLeast test [] w = λ q h. absurd (ground (arith, h))
find-IsLeast test (x ∷ l) (least, w) = elim (Bool-cases (test x)) [
  | inl e ↦ rw e (ground arith, e, (λ q h t. ground (arith, h, least q)))
  | inr e ↦ rw e (skip-IsLeast test x l (find test l) e (find-IsLeast test l w))
]

IsLeast-same :
    (test : ℕ → Bool) (l m : List ℕ) (o : Option ℕ)
    → ((q : ℕ) → has l q ≡ has m q)
    → IsLeast test l o
    → IsLeast test m o
unfolding IsLeast
IsLeast-same test l m none same w = λ q h. w q (same q ∙ h)
IsLeast-same test l m (some p) same (on, passes, least) =
    (sym (same p) ∙ on, passes, λ q h t. least q (same q ∙ h) t)

-- The port handed out is held, is not taken, and is the lowest such port; there is none exactly
-- where every held port is taken.
pub lowest_free_port-IsLeast :
    (held taken : List ℕ) → IsLeast (λ p. not (has taken p)) held (lowest_free_port held taken)
unfolding lowest_free_port
lowest_free_port-IsLeast held taken =
    IsLeast-same (λ p. not (has taken p)) (sorted held) held _ (has-sorted held)
      (find-IsLeast (λ p. not (has taken p)) (sorted held) (sorted-Ascending held))
