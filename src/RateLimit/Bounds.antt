-- ===== src/RateLimit/Bounds.antt =====
-- src/ws/controller.ts: `checkRateLimit` bounds what a socket gets through in any second.
use open_live.Prelude.{
  ℕ, ◌+◌, ◌≤◌, ◌<◌, Bool, true, false, ◌&&◌, List, [], ◌∷◌, ◌++◌, ◌≡◌, refl, ap, sym, ◌∙◌, subst,
  arith, ltb, leb, length, keep, length-append,
}
use open_live.RateLimit.Keys.{key_eq}
use open_live.RateLimit.{
  RateLimitState, create_rate_limit_state, rate_limit_general_max, rate_limit_expensive_max,
  rate_limit_window_ms, recent, check_rate_limit,
}
use open_live.RateLimit.Windows.{
  times, costly_times, InOrder, has_room, logged, Follows, check-Agrees, keep-append, times-snoc,
  costly_times-snoc,
}

-- The log of what `checkRateLimit` lets through, added to an earlier one.
unfoldable pub let_through : List (Bool × ℕ) → RateLimitState → List (Bool × ℕ) → List (Bool × ℕ)
unfolding check_rate_limit
let_through [] s log = log
let_through ((costly, at) ∷ rest) s log =
    let (allowed, t) = check_rate_limit s costly at in
    let_through rest t (logged allowed costly at log)

abbrev pub falls_in : ℕ → ℕ → Bool
falls_in start t = ltb start t && leb t (start + rate_limit_window_ms)

-- How many instants fall in the second after `start`.
abbrev pub in_window : ℕ → List ℕ → ℕ
in_window start xs = length (keep (falls_in start) xs)

abbrev pub IsLimited : List (Bool × ℕ) → Type 0
IsLimited log =
    (start : ℕ)
    → (in_window start (times log) ≤ rate_limit_general_max)
      × (in_window start (costly_times log) ≤ rate_limit_expensive_max)

in_window_le :
    (start now : ℕ) (xs : List ℕ)
    → now ≤ start + rate_limit_window_ms
    → in_window start xs ≤ length (keep (recent now) xs)
in_window_le start now [] le = omega arith
in_window_le start now (x ∷ xs) le = ground (arith, in_window_le start now xs le)

in_window-snoc :
    (start now n : ℕ) (xs : List ℕ)
    → in_window start xs ≤ n
    → length (keep (recent now) xs) < n
    → in_window start (xs ++ now ∷ []) ≤ n
in_window-snoc start now n xs old room =
    let parts : in_window start (xs ++ now ∷ []) ≡ in_window start xs + in_window start (now ∷ []) =
      ap length (keep-append (falls_in start) xs (now ∷ []))
      ∙ length-append (keep (falls_in start) xs) (keep (falls_in start) (now ∷ [])) in
    ground (arith, parts, old, room, in_window_le start now xs)

logged-IsLimited :
    (log : List (Bool × ℕ)) (costly : Bool) (now : ℕ) (allowed : Bool)
    → allowed ≡ has_room log costly now
    → IsLimited log
    → IsLimited (logged allowed costly now log)
unfolding has_room
logged-IsLimited log costly now false e old start = old start
logged-IsLimited log true now true e old start = (
  subst (λ l. in_window start l ≤ rate_limit_general_max) (sym (times-snoc log true now))
      (in_window-snoc start now rate_limit_general_max (times log) (old start).0
        (ground (arith, e))),
  subst (λ l. in_window start l ≤ rate_limit_expensive_max) (sym (costly_times-snoc log true now))
      (in_window-snoc start now rate_limit_expensive_max (costly_times log) (old start).1
        (ground (arith, e))),
)
logged-IsLimited log false now true e old start = (
  subst (λ l. in_window start l ≤ rate_limit_general_max) (sym (times-snoc log false now))
      (in_window-snoc start now rate_limit_general_max (times log) (old start).0
        (ground (arith, e))),
  subst (λ l. in_window start l ≤ rate_limit_expensive_max) (sym (costly_times-snoc log false now))
      (old start).1,
)

let_through-all :
    (last : ℕ) (arrivals log : List (Bool × ℕ)) (s : RateLimitState)
    → InOrder last arrivals
    → Follows last log s
    → IsLimited log
    → IsLimited (let_through arrivals s log)
unfolding let_through
let_through-all last [] log s o f h = h
let_through-all last ((costly, at) ∷ rest) log s (le, o) f h =
    let (same, next) = check-Agrees last costly at log s le f in
    let_through-all at rest _ _ o next (logged-IsLimited log costly at _ same h)

-- For messages whose instants come in order, `checkRateLimit` from its fresh state lets through, in
-- any one second, wherever it begins, at most twenty messages and at most five expensive ones.
pub let_through-IsLimited :
    (arrivals : List (Bool × ℕ))
    → InOrder 0 arrivals
    → IsLimited (let_through arrivals create_rate_limit_state [])
let_through-IsLimited arrivals o =
    let_through-all 0 arrivals [] create_rate_limit_state o
      (record { since = 0; since_le = omega arith; general_is = refl; expensive_is = refl })
      (λ start. (omega arith, omega arith))
