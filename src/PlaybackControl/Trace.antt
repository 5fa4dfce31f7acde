-- ===== src/PlaybackControl/Trace.antt =====
-- The player of src/playback_control.c as an automaton over the calls, their statuses and its state.
use airplay.Base.{
  ℕ, zero, suc, ◌≡◌, ◌≢◌, ◌<◌, refl, inl, inr, false, none, some, List, [], ◌∷◌, arith, ℤ, success,
  failure, returns, Returns, Returns-eq, Returns-both, Returns-mono, ◌>>=◌, Bool-cases, ltb,
}
use airplay.PlaybackControl.{Playback, PlaybackState, stopped, playing, paused, buffering, code}
use airplay.PlaybackControl.Calls.{
  Request, init_request, cleanup_request, play_request, pause_request, stop_request, next_request,
  previous_request, get_state_request, set_state_request, set_info_request, get_info_request,
  state_callback_request, info_callback_request, IsRefused, call, call_answered, run,
}
use airplay.PlaybackControl.Machine.{target, call-Follows}

-- The calls that have nothing to do with the state.
abbrev pub IsAside : Request → Type 0
IsAside cleanup_request = Unit
IsAside next_request = Unit
IsAside previous_request = Unit
IsAside get_state_request = Unit
IsAside (set_info_request (some info)) = Unit
IsAside (get_info_request (some info)) = Unit
IsAside (state_callback_request f) = Unit
IsAside (info_callback_request f) = Unit
IsAside _ = ⊥

-- A call that returns a status moves the player from a state to a state.
pub data Step : Request → ℤ → PlaybackState → PlaybackState → Type 0 where
  reset : {st : PlaybackState} → Step init_request success st stopped
  begin : Step play_request success stopped playing
  resume : Step play_request success paused playing
  play_on : Step play_request success playing playing
  wait_on : Step play_request success buffering buffering
  hold : Step pause_request success playing paused
  no_hold : {st : PlaybackState} → st ≢ playing → Step pause_request success st st
  halt : {st : PlaybackState} → Step stop_request success st stopped
  assign :
      {st : PlaybackState} (next : PlaybackState)
      → Step (set_state_request (code next)) success st next
  refuse : {c : Request} {st : PlaybackState} → IsRefused c → Step c failure st st
  aside : {c : Request} {st : PlaybackState} → IsAside c → Step c success st st

pub data Trace : List Request → List ℤ → PlaybackState → PlaybackState → Type 0 where
  end : {st : PlaybackState} → Trace [] [] st st
  step :
      {c : Request} {cs : List Request} {status : ℤ} {statuses : List ℤ}
      {st next last : PlaybackState}
      → Step c status st next
      → Trace cs statuses next last
      → Trace (c ∷ cs) (status ∷ statuses) st last

play-Step : (st : PlaybackState) → Step play_request success st (target play_request st)
play-Step stopped = begin
play-Step playing = play_on
play-Step paused = resume
play-Step buffering = wait_on

pause-Step : (st : PlaybackState) → Step pause_request success st (target pause_request st)
pause-Step stopped = no_hold (λ e. absurd (cc e))
pause-Step playing = hold
pause-Step paused = no_hold (λ e. absurd (cc e))
pause-Step buffering = no_hold (λ e. absurd (cc e))

set_state-Step :
    (n : ℕ) (st : PlaybackState)
    → ¬ (3 < n)
    → Step (set_state_request n) success st (target (set_state_request n) st)
set_state-Step zero st h = assign stopped
set_state-Step (suc zero) st h = assign playing
set_state-Step (suc (suc zero)) st h = assign paused
set_state-Step (suc (suc (suc zero))) st h = assign buffering
set_state-Step (suc (suc (suc (suc n)))) st h = absurd (h (omega arith))

-- A call that is not refused.
taken-Step : (c : Request) (st : PlaybackState) → ¬ IsRefused c → Step c success st (target c st)
taken-Step init_request st h = reset
taken-Step cleanup_request st h = aside tt
taken-Step play_request st h = play-Step st
taken-Step pause_request st h = pause-Step st
taken-Step stop_request st h = halt
taken-Step next_request st h = aside tt
taken-Step previous_request st h = aside tt
taken-Step get_state_request st h = aside tt
taken-Step (set_state_request n) st h = set_state-Step n st h
taken-Step (set_info_request none) st h = absurd (h refl)
taken-Step (set_info_request (some info)) st h = aside tt
taken-Step (get_info_request none) st h = absurd (h refl)
taken-Step (get_info_request (some info)) st h = aside tt
taken-Step (state_callback_request f) st h = aside tt
taken-Step (info_callback_request f) st h = aside tt

abbrev Stepped : Request → Playback → ℤ × Playback → Type 0
Stepped c s r = (r.1.locked ≡ false) × Step c r.0 s.current_state r.1.current_state

call-refused : (c : Request) (s : Playback) → IsRefused c → call c s ≡ returns (failure, s)
unfolding call
call-refused (set_state_request st) s h = ground arith
call-refused (set_info_request info) s h = ground arith
call-refused (get_info_request info) s h = ground arith
call-refused init_request s h = absurd h
call-refused cleanup_request s h = absurd h
call-refused play_request s h = absurd h
call-refused pause_request s h = absurd h
call-refused stop_request s h = absurd h
call-refused next_request s h = absurd h
call-refused previous_request s h = absurd h
call-refused get_state_request s h = absurd h
call-refused (state_callback_request f) s h = absurd h
call-refused (info_callback_request f) s h = absurd h

refused_or_not : (c : Request) → Dec (IsRefused c)
refused_or_not (set_state_request n) = elim (Bool-cases (ltb 3 n)) [
  | inl high ↦ yes (ground (arith, high))
  | inr low ↦ no λ h. ground (arith, low, h)
]
refused_or_not (set_info_request none) = yes refl
refused_or_not (set_info_request (some info)) = no λ e. cc e
refused_or_not (get_info_request none) = yes refl
refused_or_not (get_info_request (some info)) = no λ e. cc e
refused_or_not _ = no λ h. h

call-Stepped : (c : Request) (s : Playback) → s.locked ≡ false → Returns (Stepped c s) (call c s)
call-Stepped c s h = elim (refused_or_not c) [
  | yes refused ↦ rw (call-refused c s refused) (h, refuse refused)
  | no taken ↦ elim (call_answered c s h) [
    | inl (refused, e) ↦ absurd (taken refused)
    | inr accepted ↦
        Returns-mono _ (Stepped c s) (call c s)
          (Returns-both _ _ (call c s) accepted (call-Follows c s h))
          λ r k. (k.1.0, rw (k.0.0, k.1.1) (taken-Step c s.current_state taken))
  ]
]

-- Any sequence of calls on a free mutex comes back with a status for each, and these and the states are a trace of
-- the automaton: an init and a stop lead to stopped; a play leads from stopped and paused to playing, and leaves
-- playing and buffering; a pause leads from playing to paused, and leaves the other states; set_state leads to the
-- state of its number; the calls that are refused with -1 and all others leave the state.
pub run-Trace :
    (cs : List Request) (s : Playback)
    → s.locked ≡ false
    → Returns (λ r. Trace cs r.0 s.current_state r.1.current_state) (run cs s)
unfolding run
run-Trace [] s h = end
run-Trace (c ∷ cs) s h =
    let ((status, t), e, (free, moved)) =
      Returns-eq (Stepped c s) (call c s) (call-Stepped c s h) in
    let ((statuses, u), f, rest) =
      Returns-eq (λ r. Trace cs r.0 t.current_state r.1.current_state) (run cs t)
        (run-Trace cs t free) in
    rw (e, ◌>>=◌, f) (step moved rest)
