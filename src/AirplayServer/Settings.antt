-- ===== src/AirplayServer/Settings.antt =====
-- The setters and the status functions of src/airplay_server.c.
use airplay.Base.{
  ℕ, Bool, true, false, Option, none, some, List, [], ◌∷◌, ℤ, success, failure, M, ret, ◌>>=◌, ◌>>◌,
  get, modify, if◌then◌else◌,
}
use airplay.AirplayServer.State.{Server, AirplayConfig, Client}

-- On a server that is not a null pointer, as all of these; `none` is the null pointer.
abbrev pub set_config : Option AirplayConfig → M Server ℤ
set_config none = ret failure
set_config (some config) = do modify λ s. record s { config = config }; ret success

-- The argument says whether the pointer is one; the second result is what is written to it.
abbrev pub get_config : Bool → M Server (ℤ × Option AirplayConfig)
get_config false = ret (failure, none)
get_config true = do s ← get; ret (success, some s.config)

abbrev pub set_audio_callback : Option ℕ → M Server ℤ
set_audio_callback callback = do
  modify λ s. record s { callbacks = record (s.callbacks) { audio = callback } }
  ret success

abbrev pub set_volume_callback : Option ℕ → M Server ℤ
set_volume_callback callback = do
  modify λ s. record s { callbacks = record (s.callbacks) { volume = callback } }
  ret success

abbrev pub set_playback_callbacks :
    Option ℕ → Option ℕ → Option ℕ → Option ℕ → Option ℕ → M Server ℤ
set_playback_callbacks play_cb pause_cb stop_cb next_cb prev_cb = do
  modify λ s. record s {
    callbacks = record (s.callbacks) {
      play = play_cb;
      pause = pause_cb;
      stop = stop_cb;
      next = next_cb;
      previous = prev_cb;
    };
  }
  ret success

unfoldable pub first_connected : List Client → Option Client
first_connected [] = none
first_connected (client ∷ clients) =
    if client.connected then some client else first_connected clients

unfoldable pub any_connected : List Client → Bool
any_connected [] = false
any_connected (client ∷ clients) = if client.connected then true else any_connected clients

abbrev pub is_connected : M Server Bool
unfolding any_connected
is_connected = do s ← get; ret (any_connected s.clients)
