-- ===== src/Audio/Buses.antt =====
-- src/lib/return-feeds.ts: the buses that the returns get, and what they are as stored.
use open_live.Prelude.{
  ℕ, ◌+◌, ◌≤◌, String, Bool, List, [], ◌∷◌, Option, none, ◌≡◌, refl, subst, sym, inl, inr, arith,
  nat_eq, Option-cases,
}
use open_live.Audio.{
  Assignment, AudioChannel, ReturnBus, Levels, number_returns, push_bus, assign_return_buses,
  assign_audio_channels, stored_buses, mirror_from, mirror_persisted_from,
  mirror_to_main_into_returns, mirror_to_main_for_persisted_returns, mirror_changes,
}
use open_live.Audio.Sends.{bus_of, OneBus}

module _ {ℓ} {S : Type ℓ} where
  -- Buses numbered one after the other, from the one after `n` on.
  abbrev pub Follows : ℕ → List (ReturnBus S) → Type 0
  Follows n [] = Unit {0}
  Follows n (r ∷ rs) = (r.aux_bus ≡ n + 1) × Follows (n + 1) rs

  Follows-number_returns : (cs : List (AudioChannel S)) (n : ℕ) → Follows n (number_returns cs n)
  unfolding number_returns
  Follows-number_returns [] n = tt
  Follows-number_returns (c ∷ cs) n = elim (Option-cases c.assignment.return_feed) [
    | inl e ↦
        subst (λ o. Follows n (push_bus n c o (number_returns cs))) (sym e)
          (Follows-number_returns cs n)
    | inr (mode, e) ↦
        subst (λ o. Follows n (push_bus n c o (number_returns cs))) (sym e)
          (refl, Follows-number_returns cs (n + 1))
  ]

  bus_of-below :
      (aux n : ℕ) (rs : List (ReturnBus S))
      → Follows n rs
      → aux ≤ n
      → bus_of aux (stored_buses rs) ≡ none
  unfolding stored_buses
  bus_of-below aux n [] f h = refl
  bus_of-below aux n (r ∷ rs) (first, rest) h =
      ground (arith, first, bus_of-below aux (n + 1) rs rest)

  OneBus-stored : (n : ℕ) (rs : List (ReturnBus S)) → Follows n rs → OneBus (stored_buses rs)
  unfolding stored_buses
  OneBus-stored n [] f = tt
  OneBus-stored n (r ∷ rs) (first, rest) =
      (bus_of-below r.aux_bus (n + 1) rs rest (omega (arith, first)), OneBus-stored (n + 1) rs rest)

  -- The returns of a production take the buses right after those of the crew, in the order of their
  -- channels, and as they are stored no two have the same bus.
  pub assign_return_buses-Follows :
      (xs : List Assignment) (resolve : String → Option S) (num_crew_aux_buses : ℕ)
      → Follows num_crew_aux_buses (assign_return_buses xs resolve num_crew_aux_buses)
        × OneBus (stored_buses (assign_return_buses xs resolve num_crew_aux_buses))
  unfolding assign_return_buses
  assign_return_buses-Follows xs resolve crew =
      let f = Follows-number_returns (assign_audio_channels xs resolve) crew in
      (f, OneBus-stored crew _ f)

  mirror-stored :
      (rs : List (ReturnBus S)) (changes : List (ℕ × Bool)) (props : Levels)
      → mirror_from rs changes props ≡ mirror_persisted_from (stored_buses rs) changes props
  unfolding mirror_from mirror_persisted_from stored_buses
  mirror-stored [] changes props = refl
  mirror-stored (r ∷ rs) changes props =
      mirror-stored rs changes (mirror_changes r.aux_bus r.own_channel r.mode changes props)

  -- The mirror over the buses as assigned is the mirror over the buses as stored.
  pub mirror_to_main-stored :
      (rs : List (ReturnBus S)) (changes : List (ℕ × Bool))
      → mirror_to_main_into_returns rs changes
        ≡ mirror_to_main_for_persisted_returns (stored_buses rs) changes
  unfolding mirror_to_main_into_returns mirror_to_main_for_persisted_returns
  mirror_to_main-stored rs changes = mirror-stored rs changes []
