-- ===== src/Tally/Subscribers.antt =====
-- Who subscribes in src/services/tally.service.ts: operators, watchers, and what `unsubscribe`
-- leaves behind.
use open_live.Prelude.{
  ℕ, String, ◌+◌, Bool, false, not, List, [], ◌∷◌, none, if◌then◌else◌, ◌==◌, nat_eq, string_eq,
  get_or, keep, length, ◌≡◌, arith, Option-cases, Bool-cases, ==_refl, inl, inr, ◌&&◌, ◌||◌,
}
use open_live.Prelude.Dict.{
  lookup, has, add, delete, lookup-insert, lookup-remove, add-Distinct, delete-Distinct, has-add,
  has-delete,
}
use open_live.Tally.{
  Hub, subscribe, unsubscribe, drop_subscriber, get_sockets, get_subscriber_count, count_watchers,
  get_watcher_count, no_hub,
}
use open_live.Tally.Snapshot.{IsWell}

count_watchers-eq :
    (watch subs : List ℕ) (count : ℕ)
    → length (keep (λ ws. not (has watch ws)) subs) + count_watchers watch count subs
      ≡ count + length subs
unfolding count_watchers
count_watchers-eq watch [] count = omega arith
count_watchers-eq watch (ws ∷ subs) count =
    ground (arith, count_watchers-eq watch subs count, count_watchers-eq watch subs (count + 1))

-- Every subscriber counts once, as an operator or as a watcher.
pub count-partition :
    (p : String) (h : Hub)
    → get_subscriber_count p h + get_watcher_count p h ≡ length (get_sockets p h)
unfolding get_subscriber_count get_watcher_count get_sockets
count-partition p h =
    omega (arith, count_watchers-eq h.watch_only_sockets (get_or (lookup p h.subscribers) []) 0)

-- After `subscribe` the socket is among those of the production; all other memberships stay.
pub subscribe-sockets :
    (p q : String) (ws w : ℕ) (watch_only : Bool) (h : Hub)
    → has (get_sockets q (subscribe p ws watch_only h)) w
      ≡ ((p == q && ws == w) || has (get_sockets q h) w)
unfolding get_sockets subscribe
subscribe-sockets p q ws w watch_only h =
    let subs = get_or (lookup p h.subscribers) [] in
    ground (
      arith,
      string_eq.beq_iff p q,
      lookup-insert p q (add ws subs) h.subscribers,
      has-add ws w subs,
    )

drop-sockets :
    (p q : String) (ws : ℕ) (m : List (String × List ℕ))
    → get_or (lookup q (drop_subscriber p ws m)) []
      ≡ (if p == q then delete ws (get_or (lookup q m) []) else get_or (lookup q m) [])
unfolding drop_subscriber delete
drop-sockets p q ws m = elim (Option-cases (lookup p m)) [
  | inl e ↦ rw (drop_subscriber, e) (ground (arith, string_eq.beq_iff p q))
  | inr (subs, e) ↦
      rw (drop_subscriber, e)
        (ground (arith, string_eq.beq_iff p q, lookup-insert p q (delete ws subs) m))
]

-- After `unsubscribe` the socket is not among those of the production and has no snapshot buffer;
-- all other memberships stay.
pub unsubscribe-sockets :
    (p q : String) (ws w : ℕ) (h : Hub)
    → (has (get_sockets q (unsubscribe p ws h)) w
        ≡ (if p == q && ws == w then false else has (get_sockets q h) w))
      × (lookup ws (unsubscribe p ws h).snapshot_buffers ≡ none)
unfolding get_sockets unsubscribe
unsubscribe-sockets p q ws w h = (
  rw (drop-sockets p q ws h.subscribers)
      (ground (arith, has-delete ws w (get_or (lookup q h.subscribers) []))),
  rw (lookup-remove ws ws h.snapshot_buffers, ==_refl ws),
)

-- Where every socket stands at most once in each production's set, it does so after a subscription
-- and after its end; in the empty hub it does.
pub IsWell-kept :
    (p : String) (ws : ℕ) (watch_only : Bool) (h : Hub)
    → IsWell h
    → IsWell (subscribe p ws watch_only h) × IsWell (unsubscribe p ws h) × IsWell no_hub
unfolding subscribe unsubscribe lookup
IsWell-kept p ws watch_only h d = (
  λ q. elim (Bool-cases (p == q)) [
    | inl same ↦
        rw (lookup-insert p q (add ws (get_or (lookup p h.subscribers) [])) h.subscribers, same)
          (add-Distinct ws (get_or (lookup p h.subscribers) []) (d p))
    | inr other ↦
        rw (lookup-insert p q (add ws (get_or (lookup p h.subscribers) [])) h.subscribers, other)
          (d q)
  ],
  λ q. rw (drop-sockets p q ws h.subscribers) (elim (Bool-cases (p == q)) [
    | inl same ↦ rw same (delete-Distinct ws (get_or (lookup q h.subscribers) []) (d q))
    | inr other ↦ rw other (d q)
  ]),
  λ q. tt,
)
