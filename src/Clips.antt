-- ===== src/Clips.antt =====
-- src/services/clip-state.service.ts: the clip states of each production and the play-pending flags.
-- The text `PRODUCTION:INPUT` that keys a flag is the pair here: no production id has a colon.
pub mod Registry
use open_live.Prelude.{
  ℕ, ◌+◌, String, Bool, true, false, not, List, [], ◌∷◌, Option, none, some, is_some, get_or,
  if◌then◌else◌, ltb, keep, map, ◌==◌, string_eq, ◌&&◌,
}
use open_live.Prelude.Dict.{lookup, insert, remove}

pub data Playback : Type 0 where
  idle cued playing paused stopped completed error : Playback

pub record ClipState : Type 0 where
  pub mixer_input : String
  pub state : Playback
  pub clip_id : Option String
  pub position_ms : Option ℕ
  pub duration_ms : Option ℕ
  pub error_text : Option String

-- A flag with the instant at which its timer drops it.
pub record Flag : Type 0 where
  pub production_id : String
  pub mixer_input : String
  pub expires_at : ℕ

pub record Clips : Type 0 where
  pub by_production : List (String × List (String × ClipState))
  pub play_pending : List Flag

abbrev pub play_pending_ttl_ms : ℕ
play_pending_ttl_ms = 5000

unfoldable pub get_clip_state_entry : String → String → Clips → Option ClipState
get_clip_state_entry p input c = lookup input (get_or (lookup p c.by_production) [])

unfoldable pub get_all_clip_states : String → Clips → List ClipState
get_all_clip_states p c = map (λ e. e.1) (get_or (lookup p c.by_production) [])

unfoldable pub set_clip_state_entry : String → ClipState → Clips → Clips
set_clip_state_entry p state c =
    let by_input = insert state.mixer_input state (get_or (lookup p c.by_production) []) in
    record c { by_production = insert p by_input c.by_production }

unfoldable pub is_flag : String → String → Flag → Bool
is_flag p input f = f.production_id == p && f.mixer_input == input

unfoldable pub clear_clip_play_pending : String → String → Clips → Clips
unfolding is_flag
clear_clip_play_pending p input c = record c {
  play_pending = keep (λ f. not (is_flag p input f)) c.play_pending;
}

unfoldable pub clear_clip_state : String → Clips → Clips
clear_clip_state p c = record c {
  by_production = remove p c.by_production;
  play_pending = keep (λ f. not (f.production_id == p)) c.play_pending;
}

unfoldable pub mark_clip_play_pending : ℕ → String → String → Clips → Clips
unfolding clear_clip_play_pending
mark_clip_play_pending now p input c =
    let cleared = clear_clip_play_pending p input c in
    let flag : Flag = record {
      production_id = p;
      mixer_input = input;
      expires_at = now + play_pending_ttl_ms;
    } in
    record cleared { play_pending = flag ∷ cleared.play_pending }

-- A flag whose timer has fired is gone.
unfoldable pub pending_in : ℕ → String → String → List Flag → Bool
unfolding is_flag
pending_in now p input [] = false
pending_in now p input (f ∷ fs) =
    if is_flag p input f && ltb now f.expires_at then true else pending_in now p input fs

unfoldable pub is_clip_play_pending : ℕ → String → String → Clips → Bool
unfolding pending_in
is_clip_play_pending now p input c = pending_in now p input c.play_pending
