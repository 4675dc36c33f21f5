-- ===== src/Audio/Picture.antt =====
-- src/lib/flow-generator.ts and src/lib/audio-channels.ts: the compact pads of the pictures and the
-- channels of the sound are numbered alike.
use open_live.Prelude.{
  ℕ, ◌+◌, ◌≤◌, String, Bool, true, not, List, [], ◌∷◌, Option, none, some, ◌≡◌, refl, ap, subst,
  ◌∙◌, sym, inl, inr, arith, ◌==◌, string_eq, is_some, Bool-cases, Option-cases, keep, All,
}
use open_live.Prelude.Dict.{lookup, insert, lookup-insert}
use open_live.Audio.{
  Assignment, AudioChannel, on_pad, by_pad, number_channels, push_channel, assign_audio_channels,
  number_inputs, mixer_input_map,
}
use open_live.Audio.Order.{count, count-by_pad}

abbrev pub named : String → Assignment → Bool
named name a = a.mixer_input == name

count-keep-le : (p q : Assignment → Bool) (xs : List Assignment) → count p (keep q xs) ≤ count p xs
count-keep-le p q [] = omega arith
count-keep-le p q (a ∷ xs) = ground (arith, count-keep-le p q xs)

lookup-number_inputs :
    (name : String) (xs : List Assignment) (i : ℕ) (m : List (String × ℕ))
    → count (named name) xs ≡ 0
    → lookup name (number_inputs xs i m) ≡ lookup name m
unfolding number_inputs
lookup-number_inputs name [] i m h = refl
lookup-number_inputs name (a ∷ xs) i m h =
    lookup-number_inputs name xs (i + 1) (insert a.mixer_input i m) (ground arith)
    ∙ ground (arith, lookup-insert a.mixer_input name i m)

-- No two assignments are of one input.
abbrev pub OneInput : List Assignment → Type 0
OneInput [] = Unit {0}
OneInput (a ∷ xs) = (count (named a.mixer_input) xs ≡ 0) × OneInput xs

count-OneInput : (xs : List Assignment) (name : String) → OneInput xs → count (named name) xs ≤ 1
count-OneInput [] name one = omega arith
count-OneInput (a ∷ xs) name (fresh, one) = elim (Bool-cases (a.mixer_input == name)) [
  | inl e ↦
      let same = (string_eq.beq_iff a.mixer_input name).0 e in
      let none_later : count (named name) xs ≡ 0 = subst (λ n. count (named n) xs ≡ 0) same fresh in
      ground (arith, none_later)
  | inr e ↦ ground (arith, count-OneInput xs name one)
]

module _ {ℓ} {S : Type ℓ} (resolve : String → Option S) where
  abbrev pub unresolved : Assignment → Bool
  unresolved a = not (is_some (resolve a.source_id))

  -- A channel has the number of its picture's pad.
  abbrev pub SamePad : List (String × ℕ) → AudioChannel S → Type 0
  SamePad m c = lookup c.assignment.mixer_input m ≡ some c.channel

  first_pad :
      (a : Assignment) (xs : List Assignment) (n : ℕ) (m : List (String × ℕ))
      → count (named a.mixer_input) (a ∷ xs) ≤ 1
      → lookup a.mixer_input (number_inputs (a ∷ xs) n m) ≡ some n
  unfolding number_inputs
  first_pad a xs n m h =
      lookup-number_inputs a.mixer_input xs (n + 1) (insert a.mixer_input n m)
        (ground (arith, string_eq.beq_iff a.mixer_input a.mixer_input))
      ∙ ground (
        arith,
        lookup-insert a.mixer_input a.mixer_input n m,
        string_eq.beq_iff a.mixer_input a.mixer_input,
      )

  All-SamePad :
      (xs : List Assignment) (n : ℕ) (m : List (String × ℕ))
      → ((name : String) → count (named name) xs ≤ 1)
      → count unresolved xs ≡ 0
      → All (SamePad (number_inputs xs n m)) (number_channels resolve xs n)
  unfolding number_channels number_inputs
  All-SamePad [] n m once found = tt
  All-SamePad (a ∷ xs) n m once found = elim (Option-cases (resolve a.source_id)) [
    | inl e ↦ absurd (unresolved_first e)
    | inr (s, e) ↦
        subst
          (λ o.
            All (SamePad (number_inputs (a ∷ xs) n m))
              (push_channel n a o (number_channels resolve xs)))
          (sym e)
          (
            first_pad a xs n m (once a.mixer_input),
            All-SamePad xs (n + 1) (insert a.mixer_input n m) (λ name. later_once name (once name))
                (ground arith),
          )
  ]
    where
      unresolved_first : resolve a.source_id ≡ none → ⊥
      unresolved_first e =
          let bad : unresolved a ≡ true = ap (λ o. not (is_some o)) e in ground arith

      later_once : (name : String) → count (named name) (a ∷ xs) ≤ 1 → count (named name) xs ≤ 1
      later_once name h = omega arith

  -- Where each input is assigned once and every source resolves, the audio channel of an input is
  -- the compact pad of its picture.
  pub assign_audio_channels-SamePad :
      (xs : List Assignment)
      → OneInput xs
      → count unresolved xs ≡ 0
      → All (SamePad (mixer_input_map xs)) (assign_audio_channels xs resolve)
  unfolding assign_audio_channels mixer_input_map
  assign_audio_channels-SamePad xs once found =
      let kept = keep on_pad xs in
      All-SamePad (by_pad kept) 0 []
        (λ name.
          subst (λ k. k ≤ 1) (sym (count-by_pad (named name) kept))
            (kept_once name (count-OneInput xs name once)))
        (count-by_pad unresolved kept ∙ omega (arith, count-keep-le unresolved on_pad xs))
    where
      kept_once :
          (name : String) → count (named name) xs ≤ 1 → count (named name) (keep on_pad xs) ≤ 1
      kept_once name h = omega (arith, count-keep-le (named name) on_pad xs)
