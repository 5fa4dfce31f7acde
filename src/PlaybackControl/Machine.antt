-- ===== src/PlaybackControl/Machine.antt =====
-- The playback state machine that src/playback_control.c keeps.
use airplay.Base.{ℕ, false, ◌≡◌, refl, none, some, arith, ℤ, Outcome, Returns, if◌then◌else◌, ltb}
use airplay.PlaybackControl.{Playback, PlaybackState, stopped, playing, paused, of_code}
use airplay.PlaybackControl.Calls.{
  Request, init_request, play_request, pause_request, stop_request, next_request, previous_request,
  set_state_request, set_info_request, get_info_request, call,
}

-- The state that a call asks for, from the state it finds.
abbrev pub target : Request → PlaybackState → PlaybackState
target init_request st = stopped
target play_request stopped = playing
target play_request paused = playing
target pause_request playing = paused
target stop_request st = stopped
target (set_state_request n) st = if ltb 3 n then st else of_code n
target _ st = st

-- The position that a call leaves in the track's information.
abbrev pub position : Request → ℕ → ℕ
position init_request ms = 0
position stop_request ms = 0
position next_request ms = 0
position previous_request ms = 0
position (set_info_request (some info)) ms = info.position_ms
position _ ms = ms

abbrev pub Follows : Request → Playback → Outcome (ℤ × Playback) → Type 0
Follows c s = Returns λ r.
    (r.1.locked ≡ false)
    × (r.1.current_state ≡ target c s.current_state)
    × (r.1.current_info.position_ms ≡ position c s.current_info.position_ms)

-- A call on a free mutex comes back with the mutex free, in the state that it asks for from the state it
-- finds, and with the position that it asks for.
pub call-Follows : (c : Request) (s : Playback) → s.locked ≡ false → Follows c s (call c s)
unfolding call
call-Follows init_request s h = ground arith
call-Follows (set_state_request n) s h = ground arith
call-Follows (set_info_request none) s h = (h, refl, refl)
call-Follows (set_info_request (some info)) s h = ground arith
call-Follows (get_info_request none) s h = (h, refl, refl)
call-Follows (get_info_request (some info)) s h = ground arith
call-Follows _ s h = ground arith
