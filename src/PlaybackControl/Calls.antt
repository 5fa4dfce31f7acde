-- ===== src/PlaybackControl/Calls.antt =====
-- The interface of src/playback_control.h as one type of calls, and the mutex over any sequence of
-- them.
use airplay.Base.{
  ℕ, ◌<◌, true, false, All, ◌≡◌, refl, ◌⊎◌, inl, inr, Option, none, List, [], ◌∷◌, arith, ℤ,
  success, failure, Outcome, returns, blocks, M, ret, ◌>>=◌, Returns, length, suc, ap, Returns-mono,
  Returns->>=,
}
use airplay.PlaybackControl.{
  Call, state_call, info_call, Playback, PlaybackInfo, init, cleanup, play, pause, stop, next,
  previous, get_state, set_state, set_info, get_info, set_state_callback, set_info_callback,
}

-- A call of the interface with its arguments.
pub data Request : Type 0 where
  init_request cleanup_request play_request pause_request stop_request : Request
  next_request previous_request get_state_request : Request
  set_state_request : ℕ → Request
  set_info_request get_info_request : Option PlaybackInfo → Request
  state_callback_request info_callback_request : Option ℕ → Request

unfoldable pub call : Request → M Playback ℤ
unfolding init cleanup play pause stop next previous get_state set_state set_info get_info
    set_state_callback set_info_callback
call init_request = init
call cleanup_request = cleanup
call play_request = play
call pause_request = pause
call stop_request = stop
call next_request = next
call previous_request = previous
call get_state_request = do _ ← get_state; ret success
call (set_state_request st) = set_state st
call (set_info_request info) = set_info info
call (get_info_request info) = do (status, _) ← get_info info; ret status
call (state_callback_request f) = set_state_callback f
call (info_callback_request f) = set_info_callback f

-- The calls that the code refuses: an enumerator out of range, and a NULL argument.
abbrev pub IsRefused : Request → Type 0
IsRefused (set_state_request st) = 3 < st
IsRefused (set_info_request info) = info ≡ none
IsRefused (get_info_request info) = info ≡ none
IsRefused _ = ⊥

abbrev pub Accepted : Outcome (ℤ × Playback) → Type 0
Accepted = Returns λ r. (r.0 ≡ success) × (r.1.locked ≡ false)

pub call_answered :
    (c : Request) (s : Playback)
    → s.locked ≡ false
    → (IsRefused c × (call c s ≡ returns (failure, s))) ⊎ Accepted (call c s)
unfolding call
call_answered init_request s h = ground arith
call_answered (set_state_request st) s h = ground arith
call_answered (set_info_request none) s h = inl (refl, refl)
call_answered (get_info_request none) s h = inl (refl, refl)
call_answered _ s h = ground arith

-- The client's function runs with the mutex held.
abbrev pub IsHeld : Call → Type 0
IsHeld (state_call f st held) = held ≡ true
IsHeld (info_call f info held) = held ≡ true

-- The call returns 0 with the mutex free, and made its calls of the client's functions with it held.
abbrev pub Answers : Outcome (ℤ × Playback) → Type 0
Answers = Returns λ r. (r.0 ≡ success) × (r.1.locked ≡ false) × All IsHeld r.1.calls

-- Any call, on any state in which the calls of the client's functions were made with the mutex held, as there are
-- none at load. It is refused with -1 and changes nothing, and has an enumerator above 3 or a null argument; or the
-- mutex is held, as it is for a call that a client's function makes, and it never comes back; or the mutex is free,
-- and the call comes back with 0 and the mutex free, and makes its calls of the client's functions with it held.
pub call-total :
    (c : Request) (s : Playback)
    → All IsHeld s.calls
    → (IsRefused c × (call c s ≡ returns (failure, s)))
      ⊎ ((s.locked ≡ true) × (call c s ≡ blocks))
      ⊎ ((s.locked ≡ false) × Answers (call c s))
unfolding call
call-total init_request s h = ground arith
call-total (set_state_request st) s h = ground arith
call-total (set_info_request none) s h = inl (refl, refl)
call-total (get_info_request none) s h = inl (refl, refl)
call-total _ s h = ground arith

-- The calls of a client, one after the other, with the statuses that it is given.
unfoldable pub run : List Request → M Playback (List ℤ)
run [] = ret []
run (c ∷ cs) = do status ← call c; rest ← run cs; ret (status ∷ rest)

-- What is kept between two calls: the mutex is free.
abbrev Answered : List Request → List ℤ × Playback → Type 0
Answered cs r = (length r.0 ≡ length cs) × (r.1.locked ≡ false)

abbrev pub Unlocked : ℤ × Playback → Type 0
Unlocked r = r.1.locked ≡ false

pub call-Unlocked : (c : Request) (s : Playback) → s.locked ≡ false → Returns Unlocked (call c s)
call-Unlocked c s h = elim (call_answered c s h) [
  | inl p ↦ rw p.1 h
  | inr q ↦ Returns-mono _ _ (call c s) q (λ _ r. r.1)
]

-- Any sequence of calls on a free mutex comes back with a status for each and the mutex free.
pub run-total :
    (cs : List Request) (s : Playback) → s.locked ≡ false → Returns (Answered cs) (run cs s)
unfolding run
run-total [] s h = (refl, h)
run-total (c ∷ cs) s h =
    Returns->>= Unlocked _ (call c) _ s (call-Unlocked c s h) λ a t u.
      Returns->>= (Answered cs) _ (run cs) _ t (run-total cs t u) λ b v w. (ap suc w.0, w.1)
