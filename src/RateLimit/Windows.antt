-- ===== src/RateLimit/Windows.antt =====
-- src/ws/controller.ts: `checkRateLimit` against a log of all that it let through.
use open_live.Prelude.{
  ℕ, ◌≤◌, Bool, true, false, ◌&&◌, ◌||◌, not, List, [], ◌∷◌, ◌++◌, ◌≡◌, refl, ap, sym, ◌∙◌, subst,
  arith, if◌then◌else◌, ltb, leb, length, keep, Bool-cases, inl, inr,
}
use open_live.RateLimit.Keys.{key_eq}
use open_live.RateLimit.{
  RateLimitState, create_rate_limit_state, rate_limit_general_max, rate_limit_expensive_max, recent,
  check_rate_limit, check_pruned, check_expensive,
}

-- Messages by whether they are expensive and the instant of their arrival.
abbrev pub is_costly : Bool × ℕ → Bool
is_costly (costly, at) = costly

abbrev pub times : List (Bool × ℕ) → List ℕ
times [] = []
times ((costly, at) ∷ log) = at ∷ times log

abbrev pub costly_times : List (Bool × ℕ) → List ℕ
costly_times [] = []
costly_times ((costly, at) ∷ log) = if costly then at ∷ costly_times log else costly_times log

-- The instants come in order, none before `last`.
abbrev pub InOrder : ℕ → List (Bool × ℕ) → Type 0
InOrder last [] = Unit
InOrder last ((costly, at) ∷ rest) = (last ≤ at) × InOrder at rest

-- What `checkRateLimit` answers to messages in turn.
unfoldable pub check_all : List (Bool × ℕ) → RateLimitState → List Bool
unfolding check_rate_limit
check_all [] s = []
check_all ((costly, at) ∷ rest) s =
    let (allowed, t) = check_rate_limit s costly at in allowed ∷ check_all rest t

-- The rule that the limit states: fewer than twenty messages let through in the last second, and
-- fewer than five expensive ones where this one is.
unfoldable pub has_room : List (Bool × ℕ) → Bool → ℕ → Bool
has_room log costly now =
    ltb (length (keep (recent now) (times log))) rate_limit_general_max
    && (not costly || ltb (length (keep (recent now) (costly_times log))) rate_limit_expensive_max)

abbrev pub logged : Bool → Bool → ℕ → List (Bool × ℕ) → List (Bool × ℕ)
logged allowed costly now log = if allowed then log ++ (costly, now) ∷ [] else log

unfoldable pub allow_all : List (Bool × ℕ) → List (Bool × ℕ) → List Bool
unfolding has_room
allow_all [] log = []
allow_all ((costly, at) ∷ rest) log =
    let allowed = has_room log costly at in allowed ∷ allow_all rest (logged allowed costly at log)

pub keep-append : (p : ℕ → Bool) (xs ys : List ℕ) → keep p (xs ++ ys) ≡ keep p xs ++ keep p ys
keep-append p [] ys = refl
keep-append p (x ∷ xs) ys = ground (arith, keep-append p xs ys)

keep-recent :
    (m now : ℕ) (xs : List ℕ)
    → m ≤ now
    → keep (recent now) (keep (recent m) xs) ≡ keep (recent now) xs
keep-recent m now [] le = refl
keep-recent m now (x ∷ xs) le = ground (arith, keep-recent m now xs le)

pub times-snoc :
    (log : List (Bool × ℕ)) (costly : Bool) (at : ℕ)
    → times (log ++ (costly, at) ∷ []) ≡ times log ++ at ∷ []
times-snoc [] costly at = refl
times-snoc ((c, a) ∷ log) costly at = ap (λ l. a ∷ l) (times-snoc log costly at)

pub costly_times-snoc :
    (log : List (Bool × ℕ)) (costly : Bool) (at : ℕ)
    → costly_times (log ++ (costly, at) ∷ [])
      ≡ (if costly then costly_times log ++ at ∷ [] else costly_times log)
costly_times-snoc [] true at = refl
costly_times-snoc [] false at = refl
costly_times-snoc ((true, a) ∷ log) true at = ap (λ l. a ∷ l) (costly_times-snoc log true at)
costly_times-snoc ((true, a) ∷ log) false at = ap (λ l. a ∷ l) (costly_times-snoc log false at)
costly_times-snoc ((false, a) ∷ log) costly at = costly_times-snoc log costly at

-- The lists of the state are what an earlier pruning left of the log.
pub record Follows (last : ℕ) (log : List (Bool × ℕ)) (s : RateLimitState) : Type 0 where
  pub since : ℕ
  pub since_le : since ≤ last
  pub general_is : s.general ≡ keep (recent last) (times log)
  pub expensive_is : s.expensive ≡ keep (recent since) (costly_times log)

keep-now :
    (now : ℕ) (xs : List ℕ) → keep (recent now) (xs ++ now ∷ []) ≡ keep (recent now) xs ++ now ∷ []
keep-now now xs =
    keep-append (recent now) xs (now ∷ []) ∙ ap (λ l. keep (recent now) xs ++ l) (ground arith)

pruned-Follows :
    {last : ℕ} (now : ℕ) (log : List (Bool × ℕ)) (s : RateLimitState)
    → last ≤ now
    → Follows last log s
    → Follows now log (record s { general = keep (recent now) s.general })
pruned-Follows now log s le f = record {
  since = f.since;
  since_le = omega (arith, f.since_le, le);
  general_is = ap (keep (recent now)) f.general_is ∙ keep-recent _ now (times log) le;
  expensive_is = f.expensive_is;
}

push-Follows :
    (now : ℕ) (log : List (Bool × ℕ)) (s : RateLimitState)
    → Follows now log s
    → Follows now (log ++ (false, now) ∷ []) (record s { general = s.general ++ now ∷ [] })
push-Follows now log s f = record {
  since = f.since;
  since_le = f.since_le;
  general_is =
      ap (λ l. l ++ now ∷ []) f.general_is
      ∙ (sym (keep-now now (times log)) ∙ ap (keep (recent now)) (sym (times-snoc log false now)));
  expensive_is =
      f.expensive_is ∙ ap (keep (recent f.since)) (sym (costly_times-snoc log false now));
}

push_both-Follows :
    (now : ℕ) (log : List (Bool × ℕ)) (s : RateLimitState) (kept : List ℕ)
    → kept ≡ keep (recent now) (costly_times log)
    → Follows now log s
    → Follows now
        (log ++ (true, now) ∷ [])
        (record s { general = s.general ++ now ∷ []; expensive = kept ++ now ∷ [] })
push_both-Follows now log s kept e f = record {
  since = now;
  since_le = omega arith;
  general_is =
      ap (λ l. l ++ now ∷ []) f.general_is
      ∙ (sym (keep-now now (times log)) ∙ ap (keep (recent now)) (sym (times-snoc log true now)));
  expensive_is =
      ap (λ l. l ++ now ∷ []) e
      ∙ (sym (keep-now now (costly_times log))
          ∙ ap (keep (recent now)) (sym (costly_times-snoc log true now)));
}

-- What the code and the rule agree on after one message.
abbrev pub Agrees : ℕ → List (Bool × ℕ) → Bool → Bool × RateLimitState → Type 0
Agrees now log costly r =
    (r.0 ≡ has_room log costly now) × Follows now (logged r.0 costly now log) r.1

check_expensive-Agrees :
    (now : ℕ) (log : List (Bool × ℕ)) (s : RateLimitState)
    → leb rate_limit_general_max (length s.general) ≡ false
    → Follows now log s
    → Agrees now log true (check_expensive now s)
unfolding has_room
check_expensive-Agrees now log s room f =
    let kept = keep (recent now) s.expensive in
    let same : kept ≡ keep (recent now) (costly_times log) =
      ap (keep (recent now)) f.expensive_is
      ∙ keep-recent f.since now (costly_times log) f.since_le in
    elim (Bool-cases (leb rate_limit_expensive_max (length kept))) [
      | inl full ↦
          subst
            (λ b. Agrees now log true (
              if b then (false, record s { expensive = kept }) else (
                true,
                record s { general = s.general ++ now ∷ []; expensive = kept ++ now ∷ [] },
              )))
            (sym full)
            (
              ground (arith, full, ap length same, ap length f.general_is),
              record {
                since = now;
                since_le = omega arith;
                general_is = f.general_is;
                expensive_is = same;
              },
            )
      | inr free ↦
          subst
            (λ b. Agrees now log true (
              if b then (false, record s { expensive = kept }) else (
                true,
                record s { general = s.general ++ now ∷ []; expensive = kept ++ now ∷ [] },
              )))
            (sym free)
            (
              ground (arith, free, room, ap length same, ap length f.general_is),
              push_both-Follows now log s kept same f,
            )
    ]

below :
    (costly : Bool) (now : ℕ) (log : List (Bool × ℕ)) (s : RateLimitState)
    → leb rate_limit_general_max (length s.general) ≡ false
    → Follows now log s
    → Agrees now log costly (
        if costly
        then check_expensive now s
        else (true, record s { general = s.general ++ now ∷ [] }))
unfolding has_room
below true now log s room f = check_expensive-Agrees now log s room f
below false now log s room f =
    (ground (arith, room, ap length f.general_is), push-Follows now log s f)

check_pruned-Agrees :
    (costly : Bool) (now : ℕ) (log : List (Bool × ℕ)) (s : RateLimitState)
    → Follows now log s
    → Agrees now log costly (check_pruned costly now s)
unfolding has_room
check_pruned-Agrees costly now log s f =
    let answer = λ (b : Bool).
      if b
      then (false, s)
      else if costly
      then check_expensive now s
      else (true, record s { general = s.general ++ now ∷ [] }) in
    elim (Bool-cases (leb rate_limit_general_max (length s.general))) [
      | inl full ↦
          subst (λ b. Agrees now log costly (answer b)) (sym full)
            (ground (arith, full, ap length f.general_is), f)
      | inr room ↦
          subst (λ b. Agrees now log costly (answer b)) (sym room) (below costly now log s room f)
    ]

pub check-Agrees :
    (last : ℕ) (costly : Bool) (now : ℕ) (log : List (Bool × ℕ)) (s : RateLimitState)
    → last ≤ now
    → Follows last log s
    → Agrees now log costly (check_rate_limit s costly now)
unfolding check_rate_limit
check-Agrees last costly now log s le f =
    check_pruned-Agrees costly now log (record s { general = keep (recent now) s.general })
      (pruned-Follows now log s le f)

check_all-Follows :
    (last : ℕ) (arrivals log : List (Bool × ℕ)) (s : RateLimitState)
    → InOrder last arrivals
    → Follows last log s
    → check_all arrivals s ≡ allow_all arrivals log
unfolding check_all allow_all
check_all-Follows last [] log s o f = refl
check_all-Follows last ((costly, at) ∷ rest) log s (le, o) f =
    let (same, next) = check-Agrees last costly at log s le f in
    let allowed = (check_rate_limit s costly at).0 in
    ap (λ b. b ∷ check_all rest (check_rate_limit s costly at).1) same
    ∙ ap (λ l. has_room log costly at ∷ l)
        (check_all-Follows at rest (logged allowed costly at log) _ o next
          ∙ ap (λ b. allow_all rest (logged b costly at log)) same)

-- For messages whose instants come in order, `checkRateLimit` from its fresh state, which prunes the
-- two lists as it goes, answers each as the rule does that looks at the whole log of what it let
-- through: yes where fewer than twenty of them are of the last second and, for an expensive
-- message, fewer than five expensive ones.
pub check_all-allow_all :
    (arrivals : List (Bool × ℕ))
    → InOrder 0 arrivals
    → check_all arrivals create_rate_limit_state ≡ allow_all arrivals []
check_all-allow_all arrivals o =
    check_all-Follows 0 arrivals [] create_rate_limit_state o
      (record { since = 0; since_le = omega arith; general_is = refl; expensive_is = refl })
