-- ===== src/RateLimit/Stale.antt =====
-- src/ws/controller.ts: a setter that a drop window keeps, and a newer one that passes before the drain.
use open_live.Prelude.{
  ℕ, String, true, false, ◌∷◌, ◌++◌, [], Option, none, some, ◌≡◌, refl, ap, ◌∙◌, arith,
  if◌then◌else◌, if-holds, ltb, leb, append_assoc,
}
use open_live.RateLimit.Keys.{Key, key_eq}
use open_live.RateLimit.{
  InboundMessage, Frame, Connection, coalesce_key, is_expensive, with_limit, check_rate_limit,
  acknowledged, handle_checked, handle_message, replay, closed, warn, drain_drop_window, happen,
  happen_all, fire,
}
use open_live.RateLimit.InboundMessage.{
  set_effect, audio_set, audio_proc_set, aux_send_set, grp_send_set, aux_master_set, grp_master_set,
  monitor_set, source_offset_set, source_audio_offset_set, command,
}
use open_live.RateLimit.Moment.{arrives, ticks}
use open_live.RateLimit.Steps.{check-SameDrops}

abbrev pub passes : Frame → Connection → Connection
passes f c = record c { handled = c.handled ++ f ∷ [] }

acknowledged-handled :
    (id : Option String) (c : Connection) → (acknowledged id c).handled ≡ c.handled
acknowledged-handled none c = refl
acknowledged-handled (some id) c = refl

setter-cheap : (m : InboundMessage) (key : Key) → coalesce_key m ≡ some key → is_expensive m ≡ false
unfolding coalesce_key is_expensive
setter-cheap (command kind) key e = cc
setter-cheap (set_effect target) key e = refl
setter-cheap (audio_set element_id property) key e = refl
setter-cheap (audio_proc_set element_id stage) key e = refl
setter-cheap (aux_send_set element_id bus) key e = refl
setter-cheap (grp_send_set element_id bus) key e = refl
setter-cheap (aux_master_set bus) key e = refl
setter-cheap (grp_master_set bus) key e = refl
setter-cheap monitor_set key e = refl
setter-cheap (source_offset_set mixer_input) key e = refl
setter-cheap (source_audio_offset_set mixer_input) key e = refl

-- A setter that the limit lets through, in full but for what it is sent.
handle_message-handled :
    (now : ℕ) (key : Key) (f : Frame) (c : Connection)
    → coalesce_key f.msg ≡ some key
    → (check_rate_limit c.rate_limit false now).0 ≡ true
    → (handle_message now f c).handled ≡ c.handled ++ f ∷ []
unfolding handle_message
handle_message-handled now key f c set room =
    let r = check_rate_limit c.rate_limit (is_expensive f.msg) now in
    let passed : r.0 ≡ true =
      ap (λ costly. (check_rate_limit c.rate_limit costly now).0) (setter-cheap f.msg key set)
      ∙ room in
    ap (λ b. (handle_checked b now f (with_limit r.1 c)).handled) passed
    ∙ acknowledged-handled f.cmd_id (passes f (with_limit r.1 c))

handle_message-passes :
    (now : ℕ) (key : Key) (f : Frame) (c : Connection)
    → coalesce_key f.msg ≡ some key
    → f.cmd_id ≡ none
    → (check_rate_limit c.rate_limit false now).0 ≡ true
    → handle_message now f c ≡ passes f (with_limit (check_rate_limit c.rate_limit false now).1 c)
unfolding handle_message
handle_message-passes now key f c set anonymous room =
    ap
      (λ costly.
        let r = check_rate_limit c.rate_limit costly now in
        handle_checked r.0 now f (with_limit r.1 c))
      (setter-cheap f.msg key set)
    ∙ (ap (λ b. handle_checked b now f (with_limit (check_rate_limit c.rate_limit false now).1 c))
          room
        ∙ ap
            (λ id.
              acknowledged id (passes f (with_limit (check_rate_limit c.rate_limit false now).1 c)))
            anonymous)

-- The drain of a window that keeps one setter, where the limit then lets a message through.
drain-one :
    (now : ℕ) (key : Key) (f : Frame) (c : Connection)
    → coalesce_key f.msg ≡ some key
    → c.rate_limit.pending_setters ≡ (key, f) ∷ []
    → (check_rate_limit (closed c.rate_limit) false now).0 ≡ true
    → (drain_drop_window now c).handled ≡ c.handled ++ f ∷ []
unfolding drain_drop_window replay
drain-one now key f c set kept room =
    let start = with_limit (closed c.rate_limit) c in
    ap (λ l. (replay now l (warn c.rate_limit.dropped_count start)).handled) kept
    ∙ if-holds (λ (d : Connection). (handle_message now f d).handled ≡ c.handled ++ f ∷ [])
        (ltb 0 c.rate_limit.dropped_count)
        (handle_message-handled now key f
          (record start { warned = c.warned ++ c.rate_limit.dropped_count ∷ [] }) set room)
        (handle_message-handled now key f start set room)

fire-due :
    (due : ℕ) (c : Connection)
    → c.rate_limit.flush_timer ≡ some due
    → fire c.rate_limit.flush_timer due c ≡ drain_drop_window due c
fire-due due c e =
    let now_due : leb due due ≡ true = ground arith in
    ap (λ t. fire t due c) e ∙ ap (λ b. if b then drain_drop_window due c else c) now_due

-- Where an open window keeps one setter, and a newer one of the same target without an id arrives
-- before the window drains, passes the limit, and the limit lets one more message through at the
-- drain, the drain hands the older setter on to its handler after the newer one.
pub happen_all-stale :
    (now due : ℕ) (key : Key) (old new : Frame) (c : Connection)
    → coalesce_key old.msg ≡ some key
    → coalesce_key new.msg ≡ some key
    → new.cmd_id ≡ none
    → c.rate_limit.pending_setters ≡ (key, old) ∷ []
    → c.rate_limit.flush_timer ≡ some due
    → (check_rate_limit c.rate_limit false now).0 ≡ true
    → (check_rate_limit (closed (check_rate_limit c.rate_limit false now).1) false due).0 ≡ true
    → (happen_all ((now, arrives new) ∷ (due, ticks) ∷ []) c).handled ≡ c.handled ++ new ∷ old ∷ []
unfolding happen_all happen
happen_all-stale now due key old new c set_old set_new anonymous kept up room later =
    let s = (check_rate_limit c.rate_limit false now).1 in
    let d = passes new (with_limit s c) in
    let same = check-SameDrops c.rate_limit false now in
    ap (λ (e : Connection). (fire e.rate_limit.flush_timer due e).handled)
      (handle_message-passes now key new c set_new anonymous room)
    ∙ (ap (λ (e : Connection). e.handled) (fire-due due d (same.timer ∙ up))
        ∙ (drain-one due key old d set_old (same.pending ∙ kept) later
            ∙ append_assoc c.handled (new ∷ []) (old ∷ [])))
