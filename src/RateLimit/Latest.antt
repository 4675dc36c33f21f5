-- ===== src/RateLimit/Latest.antt =====
-- src/ws/controller.ts: the last setter of each target among the messages that a window drops.
use open_live.Prelude.{
  ℕ, Bool, true, false, not, ◌&&◌, List, ◌∷◌, ◌++◌, [], Option, none, some, ◌≡◌, refl, ap, sym, ◌∙◌,
  subst, arith, if◌then◌else◌, ◌==◌, string_eq, is_some, All, All-append, append_assoc, append-nil,
  get_or, Bool-cases, Option-cases, inl, inr,
}
use open_live.RateLimit.Keys.{Key, key_eq, same_key_iff}
use open_live.RateLimit.{InboundMessage, Frame, coalesce_key}
use open_live.RateLimit.Targets.{is_setter, setter-key, keyed-is_setter, coalesce_key-injective}

abbrev pub is_key : Option Key → Key → Bool
is_key none key = false
is_key (some k) key = k == key

abbrev pub has_no_id : Frame → Bool
has_no_id f = not (is_some f.cmd_id)

-- By the key of `coalesceKey`, a setter of the target that has no id.
abbrev pub sets : Key → Frame → Bool
sets key f = has_no_id f && is_key (coalesce_key f.msg) key

-- The last frame that sets the target, or `prior` where none does.
abbrev pub latest : Key → Option Frame → List (ℕ × Frame) → Option Frame
latest key prior [] = prior
latest key prior ((now, f) ∷ rest) = latest key (if sets key f then some f else prior) rest

-- A frame without an id that sets the target of `m`.
abbrev pub Sets : InboundMessage → Frame → Type 0
Sets m f = (f.cmd_id ≡ none) × (f.msg ≡ m)

abbrev pub NoneSets : InboundMessage → List (ℕ × Frame) → Type 0
NoneSets m drops = All (λ e. ¬ (Sets m e.1)) drops

-- The last of the frames that sets the target, if one does.
abbrev pub IsLatest : InboundMessage → List (ℕ × Frame) → Option Frame → Type 0
IsLatest m drops none = NoneSets m drops
IsLatest m drops (some f) =
    (before : List (ℕ × Frame)) × (at : ℕ) × (after : List (ℕ × Frame)) × (drops
      ≡ before ++ (at, f) ∷ after)
    × Sets m f
    × NoneSets m after

is_key-eq : (o : Option Key) (key : Key) → is_key o key ≡ true → o ≡ some key
is_key-eq none key h = absurd (ground (arith, h))
is_key-eq (some k) key h = ap some ((same_key_iff k key).0 h)

sets-key : (key : Key) (f : Frame) → sets key f ≡ true → coalesce_key f.msg ≡ some key
sets-key key f h = is_key-eq (coalesce_key f.msg) key (ground (arith, h))

module _ (m : InboundMessage) (key : Key) (keyed : coalesce_key m ≡ some key) where
  sets-Sets : (f : Frame) → sets key f ≡ true → Sets m f
  sets-Sets f h = elim (Option-cases f.cmd_id) [
    | inl e ↦ (e, coalesce_key-injective f.msg m key (sets-key key f h) keyed)
    | inr (id, e) ↦ absurd (ground (arith, h, e))
  ]

  Sets-sets : (f : Frame) → Sets m f → sets key f ≡ true
  Sets-sets f (anonymous, same) =
      ap (λ o. not (is_some o) && is_key (coalesce_key f.msg) key) anonymous
      ∙ ap (λ o. is_key o key) (ap coalesce_key same ∙ keyed)
      ∙ (same_key_iff key key).1 refl

  not_sets : (f : Frame) → sets key f ≡ false → ¬ (Sets m f)
  not_sets f h w = let bad : false ≡ true = sym h ∙ Sets-sets f w in cc

  unset-IsLatest :
      (before : List (ℕ × Frame)) (at : ℕ) (g : Frame) (prior : Option Frame)
      → sets key g ≡ false
      → IsLatest m before prior
      → IsLatest m (before ++ (at, g) ∷ []) prior
  unset-IsLatest before at g none h old =
      All-append (λ (e : ℕ × Frame). ¬ (Sets m e.1)) before ((at, g) ∷ []) old (not_sets g h, tt)
  unset-IsLatest before at g (some f) h (b, when, a, same, w, rest) = (
    b,
    when,
    a ++ (at, g) ∷ [],
    ap (λ l. l ++ (at, g) ∷ []) same ∙ append_assoc b ((when, f) ∷ a) ((at, g) ∷ []),
    w,
    All-append (λ (e : ℕ × Frame). ¬ (Sets m e.1)) a ((at, g) ∷ []) rest (not_sets g h, tt),
  )

  step-IsLatest :
      (before : List (ℕ × Frame)) (at : ℕ) (g : Frame) (prior : Option Frame)
      → IsLatest m before prior
      → IsLatest m (before ++ (at, g) ∷ []) (if sets key g then some g else prior)
  step-IsLatest before at g prior old =
      let P = λ (b : Bool). IsLatest m (before ++ (at, g) ∷ []) (if b then some g else prior) in
      elim (Bool-cases (sets key g)) [
        | inl h ↦ subst P (sym h) (before, at, [], refl, sets-Sets g h, tt)
        | inr h ↦ subst P (sym h) (unset-IsLatest before at g prior h old)
      ]

  latest-IsLatest :
      (before drops : List (ℕ × Frame)) (prior : Option Frame)
      → IsLatest m before prior
      → IsLatest m (before ++ drops) (latest key prior drops)
  latest-IsLatest before [] prior old =
      subst (λ l. IsLatest m l prior) (sym (append-nil before)) old
  latest-IsLatest before ((at, g) ∷ drops) prior old =
      subst (λ l. IsLatest m l (latest key (if sets key g then some g else prior) drops))
        (append_assoc before ((at, g) ∷ []) drops)
        (latest-IsLatest (before ++ (at, g) ∷ []) drops (if sets key g then some g else prior)
          (step-IsLatest before at g prior old))

-- What is kept under a key is the last frame of a setter, under its own key.
latest-keyed :
    (key : Key) (prior : Option Frame) (drops : List (ℕ × Frame)) (f : Frame)
    → ((g : Frame) → prior ≡ some g → coalesce_key g.msg ≡ some key)
    → latest key prior drops ≡ some f
    → coalesce_key f.msg ≡ some key
latest-keyed key prior [] f old e = old f e
latest-keyed key prior ((at, g) ∷ drops) f old e =
    latest-keyed key (if sets key g then some g else prior) drops f
      (λ h same. elim (Bool-cases (sets key g)) [
        | inl on ↦
            subst (λ k. coalesce_key k.msg ≡ some key)
              (ap (λ o. get_or o g) (sym (ap (λ b. if b then some g else prior) on) ∙ same))
              (sets-key key g on)
        | inr off ↦ old h (sym (ap (λ b. if b then some g else prior) off) ∙ same)
      ])
      e

-- A map from keys to frames keeps the last setter of each target, and nothing else.
pub record KeepsLatest (drops : List (ℕ × Frame)) (kept : Key → Option Frame) : Type 0 where
  pub each :
      (m : InboundMessage)
      → is_setter m ≡ true
      → (key : Key) × (coalesce_key m ≡ some key) × IsLatest m drops (kept key)
  pub only :
      (key : Key) (f : Frame)
      → kept key ≡ some f
      → (is_setter f.msg ≡ true) × IsLatest f.msg drops (some f)

pub latest-KeepsLatest :
    (drops : List (ℕ × Frame)) (kept : Key → Option Frame)
    → ((key : Key) → kept key ≡ latest key none drops)
    → KeepsLatest drops kept
latest-KeepsLatest drops kept same = record {
  each = λ m h.
      let (key, keyed, back) = setter-key m h in
      (
        key,
        keyed,
        subst (IsLatest m drops) (sym (same key)) (latest-IsLatest m key keyed [] drops none tt),
      );
  only = λ key f e.
      let keyed : coalesce_key f.msg ≡ some key =
        latest-keyed key none drops f (λ g bad. cc) (sym (same key) ∙ e) in
      (
        keyed-is_setter f.msg key keyed,
        subst (IsLatest f.msg drops) (sym (same key) ∙ e)
            (latest-IsLatest f.msg key keyed [] drops none tt),
      );
}
