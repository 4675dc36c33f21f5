-- ===== src/Audio/Order.antt =====
-- src/lib/audio-channels.ts: the sort by pad keeps the assignments and puts their pads in order.
use open_live.Prelude.{
  ℕ, ◌+◌, ◌≤◌, Bool, List, [], ◌∷◌, ◌≡◌, refl, ap, ◌∙◌, inl, inr, arith, leb, All, if◌then◌else◌,
  Bool-cases,
}
use open_live.Audio.{Assignment, pad_of, place, by_pad}

abbrev pub count {ℓ} : {A : Type ℓ} → (A → Bool) → List A → ℕ
count p [] = 0
count p (x ∷ xs) = (if p x then 1 else 0) + count p xs

count-place :
    (p : Assignment → Bool) (a : Assignment) (xs : List Assignment)
    → count p (place a xs) ≡ count p (a ∷ xs)
unfolding place
count-place p a [] = refl
count-place p a (b ∷ xs) = ground (arith, count-place p a xs)

pub count-by_pad : (p : Assignment → Bool) (xs : List Assignment) → count p (by_pad xs) ≡ count p xs
unfolding by_pad
count-by_pad p [] = refl
count-by_pad p (a ∷ xs) =
    count-place p a (by_pad xs) ∙ ap (λ n. (if p a then 1 else 0) + n) (count-by_pad p xs)

-- No pad is below one that stands before it.
abbrev pub Ascending : List ℕ → Type 0
Ascending [] = Unit {0}
Ascending (n ∷ ns) = All (λ m. n ≤ m) ns × Ascending ns

abbrev pub pads : List Assignment → List ℕ
pads [] = []
pads (a ∷ xs) = pad_of a ∷ pads xs

All-le : (n m : ℕ) (ns : List ℕ) → n ≤ m → All (λ k. m ≤ k) ns → All (λ k. n ≤ k) ns
All-le n m [] le h = tt
All-le n m (k ∷ ns) le (first, rest) = (omega arith, All-le n m ns le rest)

All-place :
    (n : ℕ) (a : Assignment) (xs : List Assignment)
    → n ≤ pad_of a
    → All (λ k. n ≤ k) (pads xs)
    → All (λ k. n ≤ k) (pads (place a xs))
unfolding place
All-place n a [] le h = (le, tt)
All-place n a (b ∷ xs) le (first, rest) = elim (Bool-cases (leb (pad_of a) (pad_of b))) [
  | inl e ↦ rw e (le, (first, rest))
  | inr e ↦ rw e (first, All-place n a xs le rest)
]

place-Ascending :
    (a : Assignment) (xs : List Assignment) → Ascending (pads xs) → Ascending (pads (place a xs))
unfolding place
place-Ascending a [] s = (tt, tt)
place-Ascending a (b ∷ xs) (first, rest) = elim (Bool-cases (leb (pad_of a) (pad_of b))) [
  | inl e ↦
      let le : pad_of a ≤ pad_of b = ground arith in
      rw e ((le, All-le (pad_of a) (pad_of b) (pads xs) le first), (first, rest))
  | inr e ↦ rw e (All-place (pad_of b) a xs (ground arith) first, place-Ascending a xs rest)
]

pub by_pad-Ascending : (xs : List Assignment) → Ascending (pads (by_pad xs))
unfolding by_pad
by_pad-Ascending [] = tt
by_pad-Ascending (a ∷ xs) = place-Ascending a (by_pad xs) (by_pad-Ascending xs)
