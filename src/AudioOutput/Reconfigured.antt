-- ===== src/AudioOutput/Reconfigured.antt =====
-- audio_output_configure on a module that runs.
use airplay.Base.{
  ℕ, ◌≡◌, ◌*◌, ◌<◌, arith, ◌∙◌, some, List, length, ℤ, pos, success, faults, returns, ◌>>=◌,
  >>=-returns,
}
use airplay.AudioOutput.State.{AudioConfig, PcmFormat, Pcm, Audio, frame_bytes}
use airplay.AudioOutput.Invariant.{IsSound}
use airplay.AudioOutput.Lifecycle.{configure}
use airplay.AudioOutput.Write.{write, width, write_short}

IsSound-configured :
    (c : AudioConfig) (s : Audio) → IsSound s → IsSound (record s { current_config = c })
IsSound-configured c s v = record {
  unlocked = v.unlocked;
  matched = v.matched;
  balanced = v.balanced;
  mixers_closed = v.mixers_closed;
  fits = v.fits;
  large_enough = v.large_enough;
  small_enough = v.small_enough;
  nothing_queued = v.nothing_queued;
}

configure_lem :
    (c : AudioConfig) (s : Audio)
    → IsSound s
    → configure (some c) s ≡ returns (success, record s { current_config = c })
unfolding configure
configure_lem c s v = ground (arith, v.unlocked)

module _ (physical_bytes : PcmFormat → ℕ) where
  -- A new configuration with a shorter frame on a stream that is open, and a write of a positive number of whole
  -- frames of it, all of which ALSA takes: ALSA still reads frames of the old length, past the data.
  pub write-configure :
      (c : AudioConfig) (p : Pcm) (answer : ℕ → ℤ) (bytes : List ℕ) (n : ℕ) (s : Audio)
      → IsSound s
      → s.pcm_handle ≡ some p
      → 0 < frame_bytes c
      → frame_bytes c < width physical_bytes p
      → 0 < n
      → length bytes ≡ n * frame_bytes c
      → answer n ≡ pos n
      → (do _ ← configure (some c); write physical_bytes answer (some bytes) (length bytes)) s
        ≡ faults
  write-configure c p answer bytes n s v e d k z m a =
      >>=-returns (configure (some c)) _ s success (record s { current_config = c })
        (configure_lem c s v)
      ∙ write_short physical_bytes answer bytes n (record s { current_config = c }) p
          (IsSound-configured c s v) e d k z m a
