-- ===== src/PlaybackControl.antt =====
-- src/playback_control.c and src/playback_control.h. The module's static variables are one record;
-- each function takes `playback_mutex` and gives it back, as the code does.
pub mod Calls
pub mod Machine
pub mod Trace
pub mod Listener
mod Examples
use airplay.Base.{
  ℕ, Bool, true, false, ◌||◌, Option, none, some, List, [], ◌∷◌, replicate, ltb, if◌then◌else◌, ℤ,
  success, failure, returns, blocks, M, ret, ◌>>=◌, ◌>>◌, get, modify, branch, when,
}

pub data PlaybackState : Type 0 where
  stopped playing paused buffering : PlaybackState

-- The number of an enumerator.
abbrev pub code : PlaybackState → ℕ
code stopped = 0
code playing = 1
code paused = 2
code buffering = 3

-- The enumerator of a number that has passed the range check of `set_state`.
abbrev pub of_code : ℕ → PlaybackState
of_code n =
    if ltb n 1 then stopped else if ltb n 2 then playing else if ltb n 3 then paused else buffering

-- The arrays hold 256 bytes each.
pub record PlaybackInfo : Type 0 where
  pub title : List ℕ
  pub artist : List ℕ
  pub album : List ℕ
  pub duration_ms : ℕ
  pub position_ms : ℕ

-- A call made through one of the two function pointers, with its argument, and whether `playback_mutex` is held
-- while it runs.
pub data Call : Type 0 where
  state_call : ℕ → PlaybackState → Bool → Call
  info_call : ℕ → PlaybackInfo → Bool → Call

-- A function pointer is the number of the client's function. `calls` records the calls made
-- through the pointers, newest first.
pub record Playback : Type 0 where
  pub locked : Bool
  pub current_state : PlaybackState
  pub current_info : PlaybackInfo
  pub state_callback : Option ℕ
  pub info_callback : Option ℕ
  pub calls : List Call

abbrev zeroed : PlaybackInfo
zeroed = record {
  title = replicate 256 0;
  artist = replicate 256 0;
  album = replicate 256 0;
  duration_ms = 0;
  position_ms = 0;
}

-- The static initialisers.
abbrev pub at_load : Playback
at_load = record {
  locked = false;
  current_state = stopped;
  current_info = zeroed;
  state_callback = none;
  info_callback = none;
  calls = [];
}

-- pthread_mutex_lock on a plain mutex: a thread that holds it already waits for ever.
abbrev lock : M Playback (Unit {0})
lock s = elim s.locked [ true ↦ blocks | false ↦ returns (tt, record s { locked = true }) ]

abbrev unlock : M Playback (Unit {0})
unlock = modify λ s. record s { locked = false }

-- `if (state_callback) state_callback(current_state);`
abbrev called_state : Playback → List Call
called_state s = elim s.state_callback [
  | none ↦ s.calls
  | some f ↦ state_call f s.current_state s.locked ∷ s.calls
]

abbrev called_info : Playback → List Call
called_info s = elim s.info_callback [
  | none ↦ s.calls
  | some f ↦ info_call f s.current_info s.locked ∷ s.calls
]

notify_state : M Playback (Unit {0})
notify_state = modify λ s. record s { calls = called_state s }

notify_info : M Playback (Unit {0})
notify_info = modify λ s. record s { calls = called_info s }

assign_state : PlaybackState → M Playback (Unit {0})
assign_state st = modify λ s. record s { current_state = st }

assign_position : ℕ → M Playback (Unit {0})
assign_position ms =
    modify λ s. record s { current_info = record (s.current_info) { position_ms = ms } }

unfoldable pub init : M Playback ℤ
init = do
  lock
  modify λ s. record s { current_state = stopped; current_info = zeroed }
  unlock
  ret success

unfoldable pub cleanup : M Playback ℤ
cleanup = do
  lock
  modify λ s. record s { state_callback = none; info_callback = none }
  unlock
  ret success

abbrev is_state : PlaybackState → PlaybackState → Bool
is_state stopped stopped = true
is_state playing playing = true
is_state paused paused = true
is_state buffering buffering = true
is_state _ _ = false

pub play : M Playback ℤ
unfolding notify_state assign_state
play = do
  lock
  s ← get
  branch (is_state s.current_state paused) (assign_state playing)
      (when (is_state s.current_state stopped) (assign_state playing))
  notify_state
  unlock
  ret success

pub pause : M Playback ℤ
unfolding notify_state assign_state
pause = do
  lock
  s ← get
  when (is_state s.current_state playing) (do assign_state paused; notify_state)
  unlock
  ret success

pub stop : M Playback ℤ
unfolding notify_state notify_info assign_state assign_position
stop = do
  lock
  assign_state stopped
  assign_position 0
  notify_state
  notify_info
  unlock
  ret success

pub next : M Playback ℤ
unfolding notify_info assign_position
next = do lock; assign_position 0; notify_info; unlock; ret success

pub previous : M Playback ℤ
unfolding notify_info assign_position
previous = do lock; assign_position 0; notify_info; unlock; ret success

pub get_state : M Playback PlaybackState
get_state = do lock; s ← get; unlock; ret s.current_state

-- The argument is a number, since C lets a caller pass any.
pub set_state : ℕ → M Playback ℤ
unfolding notify_state assign_state
set_state st =
    branch (ltb st (code stopped) || ltb (code buffering) st) (ret failure)
      (do lock; assign_state (of_code st); notify_state; unlock; ret success)

-- A pointer argument is `none` where it is NULL, and else what it points to.
pub set_info : Option PlaybackInfo → M Playback ℤ
unfolding notify_info
set_info none = ret failure
set_info (some info) = do
  lock
  modify λ s. record s { current_info = info }
  notify_info
  unlock
  ret success

-- The result holds what the pointer points to afterwards.
pub get_info : Option PlaybackInfo → M Playback (ℤ × Option PlaybackInfo)
get_info none = ret (failure, none)
get_info (some info) = do lock; s ← get; unlock; ret (success, some s.current_info)

pub set_state_callback : Option ℕ → M Playback ℤ
set_state_callback callback = do
  lock
  modify λ s. record s { state_callback = callback }
  unlock
  ret success

pub set_info_callback : Option ℕ → M Playback ℤ
set_info_callback callback = do
  lock
  modify λ s. record s { info_callback = callback }
  unlock
  ret success
