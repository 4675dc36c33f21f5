-- ===== src/Audio/Channels.antt =====
-- src/lib/audio-channels.ts: what the numbering of the audio channels promises.
use open_live.Prelude.{
  ℕ, ◌+◌, ◌≤◌, String, Bool, List, [], ◌∷◌, Option, ◌≡◌, refl, ap, ◌∙◌, inl, inr, arith, is_some,
  ◌&&◌, if◌then◌else◌, Option-cases, keep, All,
}
use open_live.Audio.{
  Assignment, AudioChannel, pad_of, on_pad, by_pad, number_channels, assign_audio_channels,
}
use open_live.Audio.Order.{count, count-by_pad, Ascending, pads, by_pad-Ascending}

module _ {ℓ} {S : Type ℓ} (resolve : String → Option S) where
  -- Assignments that take a channel.
  abbrev pub resolves : Assignment → Bool
  resolves a = is_some (resolve a.source_id)

  abbrev pub assigned : List (AudioChannel S) → List Assignment
  assigned [] = []
  assigned (c ∷ cs) = c.assignment ∷ assigned cs

  -- Channels numbered one after the other.
  abbrev pub Consecutive : ℕ → List (AudioChannel S) → Type 0
  Consecutive n [] = Unit {0}
  Consecutive n (c ∷ cs) = (c.channel ≡ n) × Consecutive (n + 1) cs

  Consecutive-number_channels :
      (xs : List Assignment) (n : ℕ) → Consecutive n (number_channels resolve xs n)
  unfolding number_channels
  Consecutive-number_channels [] n = tt
  Consecutive-number_channels (a ∷ xs) n = elim (Option-cases (resolve a.source_id)) [
    | inl e ↦ rw e (Consecutive-number_channels xs n)
    | inr (s, e) ↦ rw e (refl, Consecutive-number_channels xs (n + 1))
  ]

  count-number_channels :
      (p : Assignment → Bool) (xs : List Assignment) (n : ℕ)
      → count p (assigned (number_channels resolve xs n)) ≡ count (λ a. p a && resolves a) xs
  unfolding number_channels
  count-number_channels p [] n = refl
  count-number_channels p (a ∷ xs) n = elim (Option-cases (resolve a.source_id)) [
    | inl e ↦ rw e (count-number_channels p xs n ∙ ground arith)
    | inr (s, e) ↦
        rw e
          (ap (λ k. (if p a then 1 else 0) + k) (count-number_channels p xs (n + 1)) ∙ ground arith)
  ]

  All-number_channels :
      (P : ℕ → Type 0) (xs : List Assignment) (n : ℕ)
      → All P (pads xs)
      → All P (pads (assigned (number_channels resolve xs n)))
  unfolding number_channels
  All-number_channels P [] n h = tt
  All-number_channels P (a ∷ xs) n (first, rest) = elim (Option-cases (resolve a.source_id)) [
    | inl e ↦ rw e (All-number_channels P xs n rest)
    | inr (s, e) ↦ rw e (first, All-number_channels P xs (n + 1) rest)
  ]

  Ascending-number_channels :
      (xs : List Assignment) (n : ℕ)
      → Ascending (pads xs)
      → Ascending (pads (assigned (number_channels resolve xs n)))
  unfolding number_channels
  Ascending-number_channels [] n h = tt
  Ascending-number_channels (a ∷ xs) n (first, rest) = elim (Option-cases (resolve a.source_id)) [
    | inl e ↦ rw e (Ascending-number_channels xs n rest)
    | inr (s, e) ↦ rw e (
      All-number_channels (λ m. pad_of a ≤ m) xs (n + 1) first,
      Ascending-number_channels xs (n + 1) rest,
    )
  ]

  -- What a numbering of the assignments owes: channels from 0 on with no gap, in the order of the
  -- pads, and each assignment on a pad whose source resolves exactly as often as it is assigned.
  pub record IsNumbering (xs : List Assignment) (cs : List (AudioChannel S)) : Type ℓ where
    pub dense : Consecutive 0 cs
    pub in_order : Ascending (pads (assigned cs))
    pub complete :
        (p : Assignment → Bool)
        → count p (assigned cs) ≡ count (λ a. p a && resolves a) (keep on_pad xs)

  -- The channels of any assignments are a numbering of those that stand on a pad and resolve:
  -- channels from 0 on without a gap, in the order of the pads, and of every kind of assignment as
  -- many as there are among those.
  pub assign_audio_channels-IsNumbering :
      (xs : List Assignment) → IsNumbering xs (assign_audio_channels xs resolve)
  unfolding assign_audio_channels
  assign_audio_channels-IsNumbering xs = record {
    dense = Consecutive-number_channels (by_pad (keep on_pad xs)) 0;
    in_order =
        Ascending-number_channels (by_pad (keep on_pad xs)) 0 (by_pad-Ascending (keep on_pad xs));
    complete = λ p.
        count-number_channels p (by_pad (keep on_pad xs)) 0
        ∙ count-by_pad (λ a. p a && resolves a) (keep on_pad xs);
  }
