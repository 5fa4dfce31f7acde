-- ===== src/PlaybackControl/Examples.antt =====
-- The player on concrete calls.
use airplay.Base.{List, ◌≡◌, refl, ◌⊎◌, some, [], ◌∷◌, failure, returns, Returns}
use airplay.PlaybackControl.{Playback, PlaybackInfo, at_load, playing, state_call, get_state}
use airplay.Base.{true, false, blocks}
use airplay.PlaybackControl.Calls.{
  Request, set_state_request, play_request, pause_request, call, run, IsRefused, Answers,
  get_state_request, call-total,
}
use airplay.PlaybackControl.Machine.{Follows, call-Follows}
use airplay.PlaybackControl.Trace.{Trace, run-Trace}
use airplay.PlaybackControl.Listener.{Synced, call-Synced}

-- A player that plays for the listener 7.
abbrev player : Playback
player = record at_load {
  current_state = playing;
  state_callback = some 7;
  calls = state_call 7 playing true ∷ [];
}

abbrev track : PlaybackInfo
track = record {
  title = 65 ∷ [];
  artist = 66 ∷ [];
  album = [];
  duration_ms = 1000;
  position_ms = 250;
}

call-total_example :
    (IsRefused pause_request × (call pause_request player ≡ returns (failure, player)))
    ⊎ ((player.locked ≡ true) × (call pause_request player ≡ blocks))
    ⊎ ((player.locked ≡ false) × Answers (call pause_request player))
call-total_example = call-total pause_request player (refl, tt)

-- A listener that asks for the state while it is told one.
reentered : call get_state_request (record player { locked = true }) ≡ blocks
unfolding call get_state
reentered = refl

call-Follows_example : Follows pause_request player (call pause_request player)
call-Follows_example = call-Follows pause_request player refl

abbrev requests : List Request
requests = pause_request ∷ pause_request ∷ set_state_request 9 ∷ play_request ∷ []

run-Trace_example :
    Returns (λ r. Trace requests r.0 playing r.1.current_state) (run requests player)
run-Trace_example = run-Trace requests player refl

call-Synced_example : Returns (λ r. Synced r.1) (call pause_request player)
call-Synced_example = call-Synced pause_request player tt refl refl
