-- ===== src/RateLimit/Keys.antt =====
-- src/ws/controller.ts: the keys of `coalesceKey`. A key stands for the text that its parts give when
-- they are joined by `:`. Only an element id may have a `:` of its own, and the schema leaves none in
-- the field after it, so that different lists of parts never give the same text.
use open_live.Prelude.{
  ℕ, String, Bool, true, false, ◌&&◌, List, [], ◌∷◌, Eq, ◌==◌, ==_refl, string_eq, nat_eq, ◌≡◌,
  refl, ap, subst, ◌∙◌, ◌↔◌, arith,
}

pub data Part : Type 0 where
  text : String → Part
  number : ℕ → Part

abbrev pub Key : Type 0
Key = List Part

abbrev pub same_part : Part → Part → Bool
same_part (text a) (text b) = a == b
same_part (number a) (number b) = a == b
same_part (text a) (number b) = false
same_part (number a) (text b) = false

abbrev pub same_key : Key → Key → Bool
same_key [] [] = true
same_key [] (q ∷ qs) = false
same_key (p ∷ ps) [] = false
same_key (p ∷ ps) (q ∷ qs) = same_part p q && same_key ps qs

same_part-eq : (p q : Part) → same_part p q ≡ true → p ≡ q
same_part-eq (text a) (text b) h = ap text ((string_eq.beq_iff a b).0 h)
same_part-eq (number a) (number b) h = ap number ((nat_eq.beq_iff a b).0 h)
same_part-eq (text a) (number b) h = absurd (ground (arith, h))
same_part-eq (number a) (text b) h = absurd (ground (arith, h))

same_part_refl : (p : Part) → same_part p p ≡ true
same_part_refl (text a) = ==_refl a
same_part_refl (number a) = ==_refl a

same_key-eq : (ps qs : Key) → same_key ps qs ≡ true → ps ≡ qs
same_key-eq [] [] h = refl
same_key-eq [] (q ∷ qs) h = absurd (ground (arith, h))
same_key-eq (p ∷ ps) [] h = absurd (ground (arith, h))
same_key-eq (p ∷ ps) (q ∷ qs) h =
    ap (λ r. r ∷ ps) (same_part-eq p q (ground (arith, h)))
    ∙ ap (λ rs. q ∷ rs) (same_key-eq ps qs (ground (arith, h)))

same_key_refl : (ps : Key) → same_key ps ps ≡ true
same_key_refl [] = refl
same_key_refl (p ∷ ps) = ground (arith, same_part_refl p, same_key_refl ps)

pub same_key_iff : (ps qs : Key) → (same_key ps qs ≡ true) ↔ (ps ≡ qs)
same_key_iff ps qs =
    (same_key-eq ps qs, λ e. subst (λ rs. same_key ps rs ≡ true) e (same_key_refl ps))

instance abbrev pub key_eq : Eq Key
key_eq = record { beq_iff = same_key_iff; beq = same_key }
