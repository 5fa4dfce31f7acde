-- ===== src/AudioOutput/Calls.antt =====
-- The functions of src/audio_output.h as requests.
use airplay.Base.{ℕ, Bool, Option, List, length, some, ℤ, success, M, ret, ◌>>=◌, FloatType}
use airplay.AudioOutput.State.{AudioConfig, PcmFormat, Audio}
use airplay.AudioOutput.Lifecycle.{init, cleanup, configure, stop, is_running}
use airplay.AudioOutput.Start.{PcmAnswers, start}
use airplay.AudioOutput.Write.{write}
use airplay.AudioOutput.Mixer.{MixerAnswers, set_volume, get_volume}
use airplay.AudioOutput.Buffer.{set_buffer_size, get_buffer_size, get_available_space}

-- The calls with the answers of malloc and ALSA that they read; `F` are the floats. The results of the getters do not
-- matter here.
pub data Request (F : Type 0) : Type 0 where
  init_request : Bool → Request F
  cleanup_request stop_request : Request F
  configure_request : Option AudioConfig → Request F
  start_request : PcmAnswers → Request F
  write_request : (ℕ → ℤ) → List ℕ → Request F
  volume_request : MixerAnswers → F → Request F
  buffer_request : Bool → Bool → ℕ → Request F
  get_volume_request : MixerAnswers → Request F
  is_running_request get_buffer_size_request get_available_space_request : Request F

module _ (fl : FloatType) (physical_bytes : PcmFormat → ℕ) where
  open fl use {F}

  unfoldable pub call : Request F → M Audio ℤ
  unfolding init cleanup configure start stop write set_volume set_buffer_size get_volume is_running
      get_buffer_size get_available_space
  call (init_request granted) = init granted
  call cleanup_request = cleanup
  call stop_request = stop
  call (configure_request config) = configure config
  call (start_request answers) = start answers
  call (write_request answer bytes) = write physical_bytes answer (some bytes) (length bytes)
  call (volume_request answers volume) = set_volume fl answers volume
  call (buffer_request first second size) = set_buffer_size first second size
  call (get_volume_request answers) = do _ ← get_volume fl answers; ret success
  call is_running_request = do _ ← is_running; ret success
  call get_buffer_size_request = do _ ← get_buffer_size; ret success
  call get_available_space_request = do _ ← get_available_space; ret success
