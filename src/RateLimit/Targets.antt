-- ===== src/RateLimit/Targets.antt =====
-- src/ws/controller.ts: which setters share a key of `coalesceKey`.
use open_live.Prelude.{
  ℕ, String, Bool, true, false, ◌∷◌, [], Option, none, some, ◌≡◌, refl, ap, sym, ◌∙◌, arith,
  if◌then◌else◌, ◌==◌, string_eq, Bool-cases, inl, inr,
}
use open_live.RateLimit.Keys.{Key, key_eq}
use open_live.RateLimit.Keys.Part.{text, number}
use open_live.RateLimit.{InboundMessage, coalesce_key}
use open_live.RateLimit.EffectTarget.{master, effect_input}
use open_live.RateLimit.InboundMessage.{
  set_effect, audio_set, audio_proc_set, aux_send_set, grp_send_set, aux_master_set, grp_master_set,
  monitor_set, source_offset_set, source_audio_offset_set, command,
}

-- A setter is its target here: the values that it sets stand in the text of its frame alone.
abbrev pub is_setter : InboundMessage → Bool
is_setter (command kind) = false
is_setter _ = true

-- The setter that a key was made of.
abbrev of_text : (String → InboundMessage) → Key → Option InboundMessage
of_text make (text a ∷ []) = some (make a)
of_text make _ = none

abbrev of_number : (ℕ → InboundMessage) → Key → Option InboundMessage
of_number make (number n ∷ []) = some (make n)
of_number make _ = none

abbrev of_texts : (String → String → InboundMessage) → Key → Option InboundMessage
of_texts make (text a ∷ text b ∷ []) = some (make a b)
of_texts make _ = none

abbrev of_text_number : (String → ℕ → InboundMessage) → Key → Option InboundMessage
of_text_number make (text a ∷ number n ∷ []) = some (make a n)
of_text_number make _ = none

abbrev of_target : Key → Option InboundMessage
of_target (text a ∷ []) = some (set_effect master)
of_target (text a ∷ number n ∷ []) = some (set_effect (effect_input n))
of_target _ = none

abbrev pub message_of : Key → Option InboundMessage
message_of [] = none
message_of (number n ∷ rest) = none
message_of (text kind ∷ rest) =
    if kind == "SET_EFFECT"
    then of_target rest
    else if kind == "AUDIO_SET"
    then of_texts audio_set rest
    else if kind == "AUDIO_PROC_SET"
    then of_texts audio_proc_set rest
    else if kind == "AUX_SEND_SET"
    then of_text_number aux_send_set rest
    else if kind == "GRP_SEND_SET"
    then of_text_number grp_send_set rest
    else if kind == "AUX_MASTER_SET"
    then of_number aux_master_set rest
    else if kind == "GRP_MASTER_SET"
    then of_number grp_master_set rest
    else if kind == "MONITOR_SET"
    then some monitor_set
    else if kind == "SOURCE_OFFSET_SET"
    then of_text source_offset_set rest
    else of_text source_audio_offset_set rest

abbrev read_key : Option Key → Option InboundMessage
read_key none = none
read_key (some key) = message_of key

pub setter-key :
    (m : InboundMessage)
    → is_setter m ≡ true
    → (key : Key) × (coalesce_key m ≡ some key) × (message_of key ≡ some m)
unfolding coalesce_key
setter-key (set_effect master) h = (_, refl, refl)
setter-key (set_effect (effect_input n)) h = (_, refl, refl)
setter-key (audio_set element_id property) h = (_, refl, refl)
setter-key (audio_proc_set element_id stage) h = (_, refl, refl)
setter-key (aux_send_set element_id bus) h = (_, refl, refl)
setter-key (grp_send_set element_id bus) h = (_, refl, refl)
setter-key (aux_master_set bus) h = (_, refl, refl)
setter-key (grp_master_set bus) h = (_, refl, refl)
setter-key monitor_set h = (_, refl, refl)
setter-key (source_offset_set mixer_input) h = (_, refl, refl)
setter-key (source_audio_offset_set mixer_input) h = (_, refl, refl)
setter-key (command kind) h = absurd (ground (arith, h))

command-keyless : (m : InboundMessage) → is_setter m ≡ false → coalesce_key m ≡ none
unfolding coalesce_key
command-keyless (command kind) h = refl
command-keyless (set_effect target) h = absurd (ground (arith, h))
command-keyless (audio_set element_id property) h = absurd (ground (arith, h))
command-keyless (audio_proc_set element_id stage) h = absurd (ground (arith, h))
command-keyless (aux_send_set element_id bus) h = absurd (ground (arith, h))
command-keyless (grp_send_set element_id bus) h = absurd (ground (arith, h))
command-keyless (aux_master_set bus) h = absurd (ground (arith, h))
command-keyless (grp_master_set bus) h = absurd (ground (arith, h))
command-keyless monitor_set h = absurd (ground (arith, h))
command-keyless (source_offset_set mixer_input) h = absurd (ground (arith, h))
command-keyless (source_audio_offset_set mixer_input) h = absurd (ground (arith, h))

pub keyed-is_setter :
    (m : InboundMessage) (key : Key) → coalesce_key m ≡ some key → is_setter m ≡ true
keyed-is_setter m key e = elim (Bool-cases (is_setter m)) [
  | inl h ↦ h
  | inr h ↦ (let bad : none ≡ some key = sym (command-keyless m h) ∙ e in cc)
]

key-message : (m : InboundMessage) (key : Key) → coalesce_key m ≡ some key → message_of key ≡ some m
key-message m key e =
    let (made, same, back) = setter-key m (keyed-is_setter m key e) in
    ap read_key (sym e ∙ same) ∙ back

-- Setters with one key have one target.
pub coalesce_key-injective :
    (m n : InboundMessage) (key : Key)
    → coalesce_key m ≡ some key
    → coalesce_key n ≡ some key
    → m ≡ n
coalesce_key-injective m n key e f =
    ap (λ o. elim o [ none ↦ m | some a ↦ a ]) (sym (key-message m key e) ∙ key-message n key f)
