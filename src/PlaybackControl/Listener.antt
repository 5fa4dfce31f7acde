-- ===== src/PlaybackControl/Listener.antt =====
-- What the function behind `state_callback` is told.
use airplay.Base.{ℕ, false, ◌≡◌, Option, none, some, List, [], ◌∷◌, arith, success, ◌>>=◌, Returns}
use airplay.PlaybackControl.{
  Playback, PlaybackState, Call, state_call, info_call, set_info, get_info, PlaybackInfo,
}
use airplay.PlaybackControl.Calls.{
  Request, init_request, set_state_request, set_info_request, get_info_request,
  state_callback_request, call,
}

-- The newest call made through the state pointer: the function called and the state it was given.
abbrev pub last_heard : List Call → Option (ℕ × PlaybackState)
last_heard [] = none
last_heard (state_call f st held ∷ _) = some (f, st)
last_heard (info_call f info held ∷ cs) = last_heard cs

abbrev Knows : Option ℕ → PlaybackState → List Call → Type 0
Knows none st cs = Unit
Knows (some f) st cs = last_heard cs ≡ some (f, st)

-- The listener, where there is one, was last told the state that the player is in.
abbrev pub Synced : Playback → Type 0
Synced s = Knows s.state_callback s.current_state s.calls

-- `init` and a new pointer are the two calls that tell the listener nothing.
abbrev pub KeepsListener : Request → Type 0
KeepsListener init_request = ⊥
KeepsListener (state_callback_request f) = ⊥
KeepsListener _ = Unit

-- A call on a free mutex, other than an init and a new state callback, keeps the listener informed: where
-- there is one, the state that it was last told is the player's state.
pub call-Synced :
    (c : Request) (s : Playback)
    → KeepsListener c
    → s.locked ≡ false
    → Synced s
    → Returns (λ r. Synced r.1) (call c s)
unfolding call
call-Synced init_request s k h y = absurd k
call-Synced (state_callback_request f) s k h y = absurd k
call-Synced (set_info_request none) s k h y = y
call-Synced (get_info_request none) s k h y = y
call-Synced (set_state_request n) s k h y = ground arith
call-Synced _ s k h y = ground arith

-- On a free mutex, the information that is read after it was set is the information that was set.
pub get_info-set_info :
    (info old : PlaybackInfo) (s : Playback)
    → s.locked ≡ false
    → Returns
        (λ r. r.0 ≡ (success, some info))
        ((do _ ← set_info (some info); get_info (some old)) s)
unfolding set_info get_info
get_info-set_info info old s h = ground arith
