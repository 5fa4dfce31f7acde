-- ===== src/AudioOutput/Playable.antt =====
-- What holds between any two calls of src/audio_output.h, and what a client has to respect.
use airplay.Base.{
  ℕ, ◌≡◌, ◌≤◌, ◌<◌, arith, Bool, true, false, Option, some, none, List, length, ℤ, pos_part,
  Returns, FloatType,
}
use airplay.AudioOutput.State.{AudioConfig, PcmFormat, Audio, frame_bytes}
use airplay.AudioOutput.Invariant.{IsSound}
use airplay.AudioOutput.Lifecycle.{init, cleanup, configure}
use airplay.AudioOutput.Start.{PcmAnswers, start}
use airplay.AudioOutput.Write.{write, AgreesWith}
use airplay.AudioOutput.Mixer.{MixerAnswers, set_volume}
use airplay.AudioOutput.Buffer.{set_buffer_size}
use airplay.AudioOutput.Stream.{Packed}
use airplay.AudioOutput.Calls.{
  Request, init_request, cleanup_request, stop_request, configure_request, start_request,
  write_request, volume_request, buffer_request, get_volume_request, is_running_request,
  get_buffer_size_request, get_available_space_request,
}

abbrev pub IsStartable : Audio → Type 0
IsStartable s =
    s.is_running ≡ false
    → (0 < frame_bytes s.current_config) × Packed s.current_config.bits_per_sample

module _ (physical_bytes : PcmFormat → ℕ) where
  -- While the module runs, frames have a byte at least and the stream's are as long as the configuration says.
  abbrev pub IsPlayable : Audio → Type 0
  IsPlayable s =
      IsSound s
      × (s.is_running ≡ true
          → (0 < frame_bytes s.current_config)
            × AgreesWith physical_bytes s.current_config s.pcm_handle)

  -- An init, a cleanup and a new configuration come while the module does not run; it is started with 8, 16 or 32
  -- bits to a sample and a frame that has a byte at least; and ALSA takes no more frames than it is offered.
  abbrev pub IsAllowed : {F : Type 0} → Request F → Audio → Type 0
  IsAllowed (init_request granted) s = s.is_running ≡ false
  IsAllowed cleanup_request s = s.is_running ≡ false
  IsAllowed stop_request s = Unit
  IsAllowed (configure_request config) s = s.is_running ≡ false
  IsAllowed (start_request answers) s = IsStartable s
  IsAllowed (write_request answer bytes) s = (n : ℕ) → pos_part (answer n) ≤ n
  IsAllowed (volume_request answers volume) s = Unit
  IsAllowed (buffer_request first second size) s = Unit
  IsAllowed (get_volume_request answers) s = Unit
  IsAllowed is_running_request s = Unit
  IsAllowed get_buffer_size_request s = Unit
  IsAllowed get_available_space_request s = Unit

  -- A module that does not run is playable where it is sound.
  pub idle-IsPlayable : (s : Audio) → IsSound s → s.is_running ≡ false → IsPlayable s
  idle-IsPlayable s v r = (v, λ e. absurd (cc (r, e)))

pub init_idle :
    (granted : Bool) (s : Audio)
    → s.locked ≡ false
    → s.is_running ≡ false
    → Returns (λ r. r.1.is_running ≡ false) (init granted s)
unfolding init
init_idle granted s l r = ground arith

pub cleanup_idle :
    (s : Audio)
    → IsSound s
    → s.is_running ≡ false
    → Returns (λ r. r.1.is_running ≡ false) (cleanup s)
unfolding cleanup
cleanup_idle s v r = ground arith

pub configure_idle :
    (config : Option AudioConfig) (s : Audio)
    → IsSound s
    → s.is_running ≡ false
    → Returns (λ r. IsSound r.1 × (r.1.is_running ≡ false)) (configure config s)
unfolding configure
configure_idle none s v r = (v, r)
configure_idle (some config) s v r = ground arith

pub start_again :
    (answers : PcmAnswers) (s : Audio)
    → s.locked ≡ false
    → s.is_running ≡ true
    → Returns (λ r. r.1 ≡ s) (start answers s)
unfolding start
start_again answers s l r = ground arith

-- What a call leaves alone that a write depends on.
abbrev pub Steady : Audio → Audio → Type 0
Steady s t =
    (t.current_config ≡ s.current_config)
    × (t.pcm_handle ≡ s.pcm_handle)
    × (t.is_running ≡ s.is_running)

pub set_buffer_size-Steady :
    (first second : Bool) (size : ℕ) (s : Audio)
    → s.locked ≡ false
    → Returns (λ r. Steady s r.1) (set_buffer_size first second size s)
unfolding set_buffer_size
set_buffer_size-Steady first second size s l = ground arith

pub set_volume-Steady :
    (fl : FloatType) (m : MixerAnswers) (volume : fl.F) (s : Audio)
    → s.locked ≡ false
    → Returns (λ r. Steady s r.1) (set_volume fl m volume s)
unfolding set_volume
set_volume-Steady fl m volume s l = ground arith

module _ (physical_bytes : PcmFormat → ℕ) where
  pub Steady-IsPlayable :
      (s t : Audio)
      → IsPlayable physical_bytes s
      → IsSound t
      → Steady s t
      → IsPlayable physical_bytes t
  Steady-IsPlayable s t p v (c, h, r) = (v, λ e. rw (c, h) (p.1 (cc (r, e))))

  pub write_idle :
      (answer : ℕ → ℤ) (bytes : List ℕ) (s : Audio)
      → s.locked ≡ false
      → s.is_running ≡ false
      → Returns (λ r. r.1 ≡ s) (write physical_bytes answer (some bytes) (length bytes) s)
  unfolding write
  write_idle answer bytes s l r = ground arith
