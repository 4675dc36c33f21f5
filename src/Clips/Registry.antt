-- ===== src/Clips/Registry.antt =====
-- What the clip registry of src/services/clip-state.service.ts answers after each of its operations.
use open_live.Prelude.{
  ℕ, ◌+◌, String, false, not, List, [], ◌∷◌, if◌then◌else◌, ltb, keep, ◌==◌, string_eq, ◌&&◌, ◌≡◌,
  arith,
}
use open_live.Clips.{
  Flag, Clips, is_flag, clear_clip_play_pending, mark_clip_play_pending, pending_in,
  is_clip_play_pending, play_pending_ttl_ms,
}

pending-cleared :
    (now : ℕ) (p q input other : String) (fs : List Flag)
    → pending_in now q other (keep (λ f. not (is_flag p input f)) fs)
      ≡ (if p == q && input == other then false else pending_in now q other fs)
unfolding pending_in is_flag
pending-cleared now p q input other [] = ground arith
pending-cleared now p q input other (f ∷ fs) = ground (
  arith,
  pending-cleared now p q input other fs,
  string_eq.beq_iff p q,
  string_eq.beq_iff input other,
  string_eq.beq_iff f.production_id p,
  string_eq.beq_iff f.production_id q,
  string_eq.beq_iff f.mixer_input input,
  string_eq.beq_iff f.mixer_input other,
)

-- A play that was just sent is pending for five seconds, whatever flags there were before; the flags
-- of other inputs and productions stay as they are.
pub mark-pending :
    (now later : ℕ) (p q input other : String) (c : Clips)
    → is_clip_play_pending later q other (mark_clip_play_pending now p input c) ≡ (
        if p == q && input == other
        then ltb later (now + play_pending_ttl_ms)
        else is_clip_play_pending later q other c)
unfolding is_clip_play_pending mark_clip_play_pending clear_clip_play_pending pending_in is_flag
mark-pending now later p q input other c = ground (
  arith,
  pending-cleared later p q input other c.play_pending,
  string_eq.beq_iff p q,
  string_eq.beq_iff input other,
)
