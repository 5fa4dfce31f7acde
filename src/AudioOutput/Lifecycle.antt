-- ===== src/AudioOutput/Lifecycle.antt =====
-- audio_output_init, _cleanup, _configure, _stop and _is_running.
use airplay.Base.{
  ◌⊎◌, inl, inr, Bool-cases, Bool, true, false, not, Option, none, some, [], if◌then◌else◌, ℤ,
  success, failure, blocks, M, ret, ◌>>=◌, ◌>>◌, get, modify, branch, when, Returns, ◌≡◌, arith,
}
use airplay.AudioOutput.Invariant.{IsSound}
use airplay.AudioOutput.State.{
  AudioConfig, Audio, default_sample_rate, default_channels, default_bits_per_sample,
  default_device, lock, unlock, allocate, is_some, close_pcm,
}

unfoldable pub init : Bool → M Audio ℤ
init granted = do
  lock
  modify λ s. record s {
    current_config = record {
      sample_rate = default_sample_rate;
      channels = default_channels;
      bits_per_sample = default_bits_per_sample;
      device_name = default_device;
      use_hw_volume = false;
    };
  }
  s ← get
  allocate granted s.buffer_size
  branch (not granted) (do unlock; ret failure)
      (do modify λ s. record s { buffer_write_pos = 0; buffer_read_pos = 0 }; unlock; ret success)

unfoldable pub stop : M Audio ℤ
unfolding close_pcm
stop = do
  lock
  s ← get
  branch (not s.is_running) (do unlock; ret success)
      (do
        when (is_some s.pcm_handle) close_pcm
        modify λ s. record s { is_running = false }
        unlock
        ret success)

unfoldable pub cleanup : M Audio ℤ
unfolding stop close_pcm
cleanup = do
  lock
  s ← get
  when s.is_running (do _ ← stop; ret tt)
  s ← get
  when (is_some s.pcm_handle) close_pcm
  modify λ s. record s { audio_buffer = none }
  unlock
  ret success

-- NULL is `none`.
unfoldable pub configure : Option AudioConfig → M Audio ℤ
configure none = ret failure
configure (some config) = do
  lock
  modify λ s. record s { current_config = config }
  unlock
  ret success

unfoldable pub is_running : M Audio Bool
is_running = do lock; s ← get; unlock; ret s.is_running

cleanup_deadlock : (s : Audio) → s.locked ≡ false → s.is_running ≡ true → cleanup s ≡ blocks
unfolding cleanup
cleanup_deadlock s l r = ground arith

-- From a state that satisfies the invariant, a stop returns 0, leaves no ALSA stream open and the
-- module not running, and keeps the invariant.
pub stop-IsSound :
    (s : Audio)
    → IsSound s
    → Returns
        (λ r. (r.0 ≡ success) × (r.1.open_pcms ≡ []) × (r.1.is_running ≡ false) × IsSound r.1)
        (stop s)
unfolding stop
stop-IsSound s v = ground arith

-- From a state of a stopped module that satisfies the invariant, a cleanup returns 0, leaves no ALSA
-- stream open and the buffer freed, and keeps the invariant.
pub cleanup-IsSound :
    (s : Audio)
    → IsSound s
    → s.is_running ≡ false
    → Returns
        (λ r. (r.0 ≡ success) × (r.1.open_pcms ≡ []) × (r.1.audio_buffer ≡ none) × IsSound r.1)
        (cleanup s)
unfolding cleanup
cleanup-IsSound s v r = ground arith

-- An init keeps the invariant, and returns 0 where malloc succeeds and -1 where it does not.
pub init-IsSound :
    (granted : Bool) (s : Audio)
    → IsSound s
    → Returns
        (λ r. (if granted then r.0 ≡ success else r.0 ≡ failure) × IsSound r.1)
        (init granted s)
unfolding init
init-IsSound granted s v = ground arith

-- A cleanup, from a state that satisfies the invariant: where the module runs it never comes back, for
-- `audio_output_cleanup` calls `audio_output_stop` with `audio_mutex` held. Where it does not run the call returns 0,
-- no ALSA stream is open, the buffer is freed, and the invariant is kept.
pub cleanup-blocks :
    (s : Audio)
    → IsSound s
    → ((s.is_running ≡ true) × (cleanup s ≡ blocks))
      ⊎ ((s.is_running ≡ false)
          × Returns
              (λ r.
                (r.0 ≡ success) × (r.1.open_pcms ≡ []) × (r.1.audio_buffer ≡ none) × IsSound r.1)
              (cleanup s))
cleanup-blocks s v = elim (Bool-cases s.is_running) [
  | inl r ↦ inl (r, cleanup_deadlock s v.unlocked r)
  | inr r ↦ inr (r, cleanup-IsSound s v r)
]
