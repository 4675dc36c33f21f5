-- ===== src/Audio/Sends.antt =====
-- src/lib/return-feeds.ts: the levels that a return is built with, and those that the crew's changes
-- of the main program mirror into it.
use open_live.Prelude.{
  ℕ, zero, suc, ◌+◌, ◌<◌, Bool, List, [], ◌∷◌, Option, none, some, ◌≡◌, ◌≢◌, refl, ap, subst, sym,
  ◌∙◌, inl, inr, arith, if◌then◌else◌, or_kept, ltb, leb, ◌==◌, nat_eq, ◌&&◌, Bool-cases,
}
use open_live.Prelude.Dict.{lookup, insert, lookup-insert}
use open_live.Audio.{
  ReturnMode, SendKey, key_eq, Levels, send_level, matrix_loop, return_send_matrix,
  PersistedReturnBus, mirror_level, mirror_changes, mirror_persisted_from,
  mirror_to_main_for_persisted_returns, return_send_closed,
}
use open_live.Audio.ReturnMode.{program_minus}

abbrev pub key : ℕ → ℕ → SendKey
key ch aux = record { ch = ch + 1; aux = aux }

lookup-matrix_loop :
    (aux own : ℕ) (mode : ReturnMode) (to_main : Option (List (ℕ × Bool))) (from left ch : ℕ)
    (props : Levels)
    → lookup (key ch aux) (matrix_loop aux own mode to_main from left props) ≡ (
        if leb from ch && ltb ch (from + left)
        then some (send_level own mode to_main ch)
        else lookup (key ch aux) props)
unfolding matrix_loop
lookup-matrix_loop aux own mode to_main from zero ch props = ground arith
lookup-matrix_loop aux own mode to_main from (suc left) ch props =
    lookup-matrix_loop aux own mode to_main (from + 1) left ch
      (insert (key from aux) (send_level own mode to_main from) props)
    ∙ ground
        (arith, lookup-insert (key from aux) (key ch aux) (send_level own mode to_main from) props)

-- What a mirrored change leaves of an older level.
abbrev mirrored : ℕ → ReturnMode → ℕ → Option Bool → Option ℕ → Option ℕ
mirrored own mode ch none old = old
mirrored own mode ch (some to_main) old = some (mirror_level own mode ch to_main)

-- A `Map` has one entry for a key.
abbrev pub OneEach : List (ℕ × Bool) → Type 0
OneEach [] = Unit {0}
OneEach ((ch, to_main) ∷ rest) = (lookup ch rest ≡ none) × OneEach rest

lookup-mirror_changes :
    (aux own : ℕ) (mode : ReturnMode) (ch : ℕ) (changes : List (ℕ × Bool)) (props : Levels)
    → OneEach changes
    → lookup (key ch aux) (mirror_changes aux own mode changes props)
      ≡ mirrored own mode ch (lookup ch changes) (lookup (key ch aux) props)
unfolding mirror_changes lookup
lookup-mirror_changes aux own mode ch [] props one = refl
lookup-mirror_changes aux own mode ch ((c, b) ∷ changes) props (once, one) =
    let v = mirror_level own mode c b in
    let later = insert (key c aux) v props in
    lookup-mirror_changes aux own mode ch changes later one ∙ elim (Bool-cases (c == ch)) [
      | inl e ↦
          let c' : c ≡ ch = ground (arith, nat_eq.beq_iff c ch) in
          ap (λ o. mirrored own mode ch o (lookup (key ch aux) later))
            (subst (λ k. lookup k changes ≡ none) c' once)
          ∙ ground (arith, c', lookup-insert (key c aux) (key ch aux) v props)
      | inr e ↦
          ap (mirrored own mode ch (lookup ch changes))
            (lookup-insert (key c aux) (key ch aux) v props)
          ∙ ground arith
    ]

lookup-mirror_other :
    (aux other own : ℕ) (mode : ReturnMode) (ch : ℕ) (changes : List (ℕ × Bool)) (props : Levels)
    → other ≢ aux
    → lookup (key ch aux) (mirror_changes other own mode changes props) ≡ lookup (key ch aux) props
unfolding mirror_changes
lookup-mirror_other aux other own mode ch [] props ne = refl
lookup-mirror_other aux other own mode ch ((c, b) ∷ changes) props ne =
    let v = mirror_level own mode c b in
    lookup-mirror_other aux other own mode ch changes (insert (key c other) v props) ne
    ∙ ground (arith, lookup-insert (key c other) (key ch aux) v props)

-- The bus of a number, which no two returns share.
abbrev pub bus_of : ℕ → List PersistedReturnBus → Option PersistedReturnBus
bus_of aux [] = none
bus_of aux (r ∷ rs) = if r.aux_bus == aux then some r else bus_of aux rs

abbrev pub OneBus : List PersistedReturnBus → Type 0
OneBus [] = Unit {0}
OneBus (r ∷ rs) = (bus_of r.aux_bus rs ≡ none) × OneBus rs

abbrev by_bus : Option PersistedReturnBus → ℕ → List (ℕ × Bool) → Option ℕ → Option ℕ
by_bus none ch changes old = old
by_bus (some r) ch changes old = mirrored r.own_channel r.mode ch (lookup ch changes) old

lookup-mirror_persisted :
    (aux ch : ℕ) (rs : List PersistedReturnBus) (changes : List (ℕ × Bool)) (props : Levels)
    → OneEach changes
    → OneBus rs
    → lookup (key ch aux) (mirror_persisted_from rs changes props)
      ≡ by_bus (bus_of aux rs) ch changes (lookup (key ch aux) props)
unfolding mirror_persisted_from
lookup-mirror_persisted aux ch [] changes props one bus = refl
lookup-mirror_persisted aux ch (r ∷ rs) changes props one (fresh, bus) =
    let later = mirror_changes r.aux_bus r.own_channel r.mode changes props in
    lookup-mirror_persisted aux ch rs changes later one bus ∙ elim (Bool-cases (r.aux_bus == aux)) [
      | inl e ↦
          let same : r.aux_bus ≡ aux = ground (arith, nat_eq.beq_iff r.aux_bus aux) in
          ap (λ o. by_bus o ch changes (lookup (key ch aux) later))
            (subst (λ k. bus_of k rs ≡ none) same fresh)
          ∙ (subst
                (λ k.
                  lookup (key ch aux) (mirror_changes k r.own_channel r.mode changes props)
                  ≡ mirrored r.own_channel r.mode ch (lookup ch changes)
                      (lookup (key ch aux) props))
                (sym same) (lookup-mirror_changes aux r.own_channel r.mode ch changes props one)
              ∙ ap
                  (λ t.
                    by_bus (if t then some r else bus_of aux rs) ch changes
                      (lookup (key ch aux) props))
                  (sym e))
      | inr e ↦
          ap (by_bus (bus_of aux rs) ch changes)
            (lookup-mirror_other aux r.aux_bus r.own_channel r.mode ch changes props (ground arith))
          ∙ ap
              (λ t.
                by_bus (if t then some r else bus_of aux rs) ch changes (lookup (key ch aux) props))
              (sym e)
    ]

-- The state of the channels after the changes.
abbrev pub changed : List (ℕ × Bool) → List (ℕ × Bool) → List (ℕ × Bool)
changed [] to_main = to_main
changed ((ch, b) ∷ changes) to_main = changed changes (insert ch b to_main)

lookup-changed :
    (ch : ℕ) (changes to_main : List (ℕ × Bool))
    → OneEach changes
    → lookup ch (changed changes to_main) ≡ or_kept (lookup ch changes) (lookup ch to_main)
unfolding lookup
lookup-changed ch [] to_main one = refl
lookup-changed ch ((c, b) ∷ changes) to_main (once, one) =
    lookup-changed ch changes (insert c b to_main) one ∙ elim (Bool-cases (c == ch)) [
      | inl e ↦
          let same : c ≡ ch = ground (arith, nat_eq.beq_iff c ch) in
          ap (λ o. or_kept o (lookup ch (insert c b to_main)))
            (subst (λ k. lookup k changes ≡ none) same once)
          ∙ ground (arith, same, lookup-insert c ch b to_main)
      | inr e ↦ ap (or_kept (lookup ch changes)) (lookup-insert c ch b to_main) ∙ ground arith
    ]

mirrored-level :
    (own ch : ℕ) (mode : ReturnMode) (change : Option Bool) (to_main : List (ℕ × Bool))
    (later : List (ℕ × Bool))
    → lookup ch later ≡ or_kept change (lookup ch to_main)
    → or_kept (mirrored own mode ch change none) (some (send_level own mode (some to_main) ch))
      ≡ some (send_level own mode (some later) ch)
unfolding mirror_level send_level
mirrored-level own ch mode none to_main later e = ground (arith, e)
mirrored-level own ch mode (some b) to_main later e = ground (arith, e)

in_matrix :
    (aux own : ℕ) (mode : ReturnMode) (n ch : ℕ) (to_main : Option (List (ℕ × Bool)))
    → ch < n
    → lookup (key ch aux) (return_send_matrix aux own mode n to_main)
      ≡ some (send_level own mode to_main ch)
unfolding return_send_matrix lookup
in_matrix aux own mode n ch to_main h =
    lookup-matrix_loop aux own mode to_main 0 n ch [] ∙ ground arith

-- Laid over the levels that a return was built with, the levels that the crew's changes mirror into
-- the returns are, for each of the channels, those that building the return anew after the changes
-- gives, where the returns have different buses and each channel is changed at most once.
pub mirror-return_send_matrix :
    (rs : List PersistedReturnBus) (r : PersistedReturnBus) (changes to_main : List (ℕ × Bool))
    (n ch : ℕ)
    → OneBus rs
    → bus_of r.aux_bus rs ≡ some r
    → OneEach changes
    → ch < n
    → or_kept (lookup (key ch r.aux_bus) (mirror_to_main_for_persisted_returns rs changes)) (
        lookup
          (key ch r.aux_bus)
          (return_send_matrix r.aux_bus r.own_channel r.mode n (some to_main)))
      ≡ lookup
          (key ch r.aux_bus)
          (return_send_matrix r.aux_bus r.own_channel r.mode n (some (changed changes to_main)))
unfolding mirror_to_main_for_persisted_returns lookup
mirror-return_send_matrix rs r changes to_main n ch bus held one h =
    let k = key ch r.aux_bus in
    let own = r.own_channel in
    ap (λ o. or_kept o (lookup k (return_send_matrix r.aux_bus own r.mode n (some to_main))))
      (lookup-mirror_persisted r.aux_bus ch rs changes [] one bus
        ∙ ap (λ o. by_bus o ch changes none) held)
    ∙ (ap (or_kept (mirrored own r.mode ch (lookup ch changes) none))
          (in_matrix r.aux_bus own r.mode n ch (some to_main) h)
        ∙ (mirrored-level own ch r.mode (lookup ch changes) to_main (changed changes to_main)
              (lookup-changed ch changes to_main one)
            ∙ sym (in_matrix r.aux_bus own r.mode n ch (some (changed changes to_main)) h)))

-- A level is not an open one.
abbrev pub IsShut : Option ℕ → Type 0
IsShut none = Unit {0}
IsShut (some level) = level ≡ return_send_closed

mirrored-IsShut :
    (own : ℕ) (change : Option Bool) → IsShut (mirrored own program_minus own change none)
unfolding mirror_level
mirrored-IsShut own none = tt
mirrored-IsShut own (some b) = ground (arith, nat_eq.beq_iff own own)

-- In program-minus a guest's own channel is closed in the send matrix that the guest's return is built
-- with, whatever channels are off the program, and what is mirrored into the returns where the crew
-- puts channels on or off the program never opens it. A send that is set by itself is not meant.
pub program_minus-IsShut :
    (rs : List PersistedReturnBus) (r : PersistedReturnBus) (changes : List (ℕ × Bool))
    (to_main : Option (List (ℕ × Bool))) (n : ℕ)
    → OneBus rs
    → bus_of r.aux_bus rs ≡ some r
    → OneEach changes
    → r.mode ≡ program_minus
    → r.own_channel < n
    → (lookup
          (key r.own_channel r.aux_bus)
          (return_send_matrix r.aux_bus r.own_channel r.mode n to_main)
        ≡ some return_send_closed)
      × IsShut
          (lookup (key r.own_channel r.aux_bus) (mirror_to_main_for_persisted_returns rs changes))
unfolding mirror_to_main_for_persisted_returns lookup send_level
program_minus-IsShut rs r changes to_main n bus held one minus h = (
  in_matrix r.aux_bus r.own_channel r.mode n r.own_channel to_main h
      ∙ ground (arith, minus, nat_eq.beq_iff r.own_channel r.own_channel),
  subst IsShut
      (sym (
        lookup-mirror_persisted r.aux_bus r.own_channel rs changes [] one bus
        ∙ ap (λ o. by_bus o r.own_channel changes none) held))
      (subst
        (λ mode.
          IsShut (mirrored r.own_channel mode r.own_channel (lookup r.own_channel changes) none))
        (sym minus) (mirrored-IsShut r.own_channel (lookup r.own_channel changes))),
)
