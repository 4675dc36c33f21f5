-- ===== src/Watchdog/Warnings.antt =====
-- The warning of src/services/idle-watchdog.ts: sent once for an idle period, and taken back when an
-- operator comes.
use open_live.Prelude.{
  ℕ, ◌+◌, ◌-◌, ◌≤◌, String, true, false, none, if◌then◌else◌, leb, get_or, string_eq, ◌≡◌, refl,
  ◌∙◌, ap, arith, Bool-cases, inl, inr,
}
use open_live.Prelude.Dict.{lookup, lookup-inserted, lookup-removed}
use open_live.Tally.{broadcast}
use open_live.Watchdog.{
  IdleConfig, Timers, warn_if_due, reset_idle_timer, warning_cleared, get_idle_timeout_ms,
  get_idle_warning_lead_ms,
}

leb_holds : (a b : ℕ) → a ≤ b → leb a b ≡ true
leb_holds a b le = ground arith

warned_lem :
    (c : IdleConfig) (now : ℕ) (ts p : String) (since : ℕ) (t : Timers)
    → get_or (lookup p t.idle_warned) false ≡ true
    → warn_if_due c now ts p since t ≡ t
unfolding warn_if_due
warned_lem c now ts p since t h = ground (arith, h)

marks :
    (c : IdleConfig) (now : ℕ) (ts p : String) (since : ℕ) (t : Timers)
    → (since + get_idle_timeout_ms c) - now ≤ get_idle_warning_lead_ms c
    → get_or (lookup p (warn_if_due c now ts p since t).idle_warned) false ≡ true
unfolding warn_if_due
marks c now ts p since t le = elim (Bool-cases (get_or (lookup p t.idle_warned) false)) [
  | inl e ↦ ap (λ u. get_or (lookup p u.idle_warned) false) (warned_lem c now ts p since t e) ∙ e
  | inr e ↦
      rw
        (
          leb_holds ((since + get_idle_timeout_ms c) - now) (get_idle_warning_lead_ms c) le,
          e,
          lookup-inserted p true t.idle_warned,
        )
        refl
]

-- Once the deadline is within the warning lead, the production is marked as warned, and no later
-- poll of the same idle period sends a second warning.
pub warn_if_due-once :
    (c : IdleConfig) (now later : ℕ) (ts ts' p : String) (since : ℕ) (t : Timers)
    → (since + get_idle_timeout_ms c) - now ≤ get_idle_warning_lead_ms c
    → let warned = warn_if_due c now ts p since t in
      (get_or (lookup p warned.idle_warned) false ≡ true)
      × (warn_if_due c later ts' p since warned ≡ warned)
unfolding warn_if_due
warn_if_due-once c now later ts ts' p since t le =
    let marked = marks c now ts p since t le in
    (marked, warned_lem c later ts' p since (warn_if_due c now ts p since t) marked)

-- An operator who joins stops the timer and forgets the warning, and every subscriber is told so
-- exactly where a warning had been sent.
pub reset-clears :
    (ts p : String) (t : Timers)
    → let t' = reset_idle_timer ts p t in
      (lookup p t'.idle_since ≡ none)
      × (lookup p t'.idle_warned ≡ none)
      × (t'.hub ≡ (
          if get_or (lookup p t.idle_warned) false
          then broadcast p ts (warning_cleared p) t.hub
          else t.hub))
unfolding reset_idle_timer
reset-clears ts p t = elim (Bool-cases (get_or (lookup p t.idle_warned) false)) [
  | inl e ↦ rw e (lookup-removed p t.idle_since, lookup-removed p t.idle_warned, refl)
  | inr e ↦ rw e (lookup-removed p t.idle_since, lookup-removed p t.idle_warned, refl)
]
