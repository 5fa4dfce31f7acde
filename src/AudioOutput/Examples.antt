-- ===== src/AudioOutput/Examples.antt =====
-- The audio output on concrete configurations and answers of ALSA.
use airplay.Base.{
  ℕ, ◌≡◌, refl, inl, inr, subst, length, List, returns, ◌>>=◌, arith, true, false, some, none, [],
  ◌∷◌, replicate, ℤ, pos, negsuc, success, failure, blocks, faults, Returns, ◌⊎◌,
}
use airplay.Base.Hundredths.{hundredths}
use airplay.AudioOutput.State.{
  Audio, frame_bytes, PcmFormat, s8, s16_le, s24_le, s32_le, at_load, default_device,
}
use airplay.AudioOutput.Invariant.{IsSound}
use airplay.AudioOutput.Lifecycle.{init, configure, cleanup, cleanup-blocks}
use airplay.AudioOutput.Start.{PcmAnswers, start, Started, willing_to_start, start_lem}
use airplay.AudioOutput.Write.{write}
use airplay.AudioOutput.Calls.{
  Request, init_request, start_request, write_request, buffer_request, stop_request, call,
}
use airplay.AudioOutput.Playable.{IsPlayable, IsStartable}
use airplay.AudioOutput.Sessions.{run, AllAllowed, run-IsPlayable}
use airplay.AudioOutput.Reconfigured.{write-configure}
use airplay.AudioOutput.Stream.{Widths, write-start, write-start_short}

abbrev configured : ℕ → ℕ → Audio
configured channels bits = record at_load {
  current_config = record {
    sample_rate = 44100;
    channels = channels;
    bits_per_sample = bits;
    device_name = default_device;
    use_hw_volume = false;
  };
  audio_buffer = some 4096;
}

configured-IsSound : (channels bits : ℕ) → IsSound (configured channels bits)
configured-IsSound channels bits = record {
  unlocked = refl;
  matched = tt;
  balanced = refl;
  mixers_closed = refl;
  fits = refl;
  large_enough = omega arith;
  small_enough = omega arith;
  nothing_queued = refl;
}

abbrev running : Audio
running = record (configured 2 16) {
  is_running = true;
  pcm_handle = some (record { handle = 3; format = s16_le; channels = 2 });
  open_pcms = 3 ∷ [];
}

running-IsSound : IsSound running
running-IsSound = record {
  unlocked = refl;
  matched = tt;
  balanced = refl;
  mixers_closed = refl;
  fits = refl;
  large_enough = omega arith;
  small_enough = omega arith;
  nothing_queued = refl;
}

abbrev willing : PcmAnswers
willing = record {
  new_handle = 3;
  open_err = success;
  any_err = success;
  access_err = success;
  format_err = success;
  rate_err = success;
  channels_err = success;
  buffer_size_err = success;
  params_err = success;
  prepare_err = success;
}

-- The device that is open has no room for the parameters.
abbrev unwilling : PcmAnswers
unwilling = record willing { params_err = negsuc 21 }

abbrev physical_bytes : PcmFormat → ℕ
physical_bytes s8 = 1
physical_bytes s16_le = 2
physical_bytes s24_le = 4
physical_bytes s32_le = 4

widths : Widths physical_bytes
widths = record { of_s8 = refl; of_s16 = refl; of_s24 = refl; of_s32 = refl }

-- All frames are taken.
abbrev all_frames : ℕ → ℤ
all_frames n = pos n

cleanup-blocks_example :
    ((running.is_running ≡ true) × (cleanup running ≡ blocks))
    ⊎ ((running.is_running ≡ false)
        × Returns
            (λ r. (r.0 ≡ success) × (r.1.open_pcms ≡ []) × (r.1.audio_buffer ≡ none) × IsSound r.1)
            (cleanup running))
cleanup-blocks_example = cleanup-blocks running running-IsSound

start_lem_example :
    Returns (Started unwilling (configured 2 16)) (start unwilling (configured 2 16))
    ⊎ ((frame_bytes (configured 2 16).current_config ≡ 0)
        × (willing_to_start unwilling ≡ true)
        × (start unwilling (configured 2 16) ≡ faults))
start_lem_example = start_lem unwilling (configured 2 16) (configured-IsSound 2 16) refl

-- No channels.
silent : start willing (configured 0 16) ≡ faults
unfolding start
silent = refl

write-start_example :
    Returns
      (λ r.
        (r.0 ≡ failure)
        ⊎ Returns (λ w. w.1 ≡ r.1) (write physical_bytes all_frames (some (replicate 9 1)) 9 r.1))
      (start willing (configured 2 16))
write-start_example =
    write-start physical_bytes widths willing all_frames (replicate 9 1) (configured 2 16)
      (configured-IsSound 2 16) refl (omega arith) (omega arith) (λ n. omega arith)

write-start_short_example :
    Returns
      (λ r.
        (r.0 ≡ failure) ⊎ (write physical_bytes all_frames (some (replicate 12 1)) 12 r.1 ≡ faults))
      (start willing (configured 2 24))
write-start_short_example =
    write-start_short physical_bytes widths willing all_frames (replicate 12 1) 2 (configured 2 24)
      (configured-IsSound 2 24) refl (omega arith) refl (omega arith) refl refl

-- Mono after stereo, without a stop between.
write-configure_example :
    (do
      _ ← configure (some (configured 1 16).current_config)
      write physical_bytes all_frames (some (replicate 4 1)) 4)
      running
    ≡ faults
write-configure_example =
    write-configure physical_bytes (configured 1 16).current_config
      (record { handle = 3; format = s16_le; channels = 2 }) all_frames (replicate 4 1) 2 running
      running-IsSound refl (omega arith) (omega arith) (omega arith) refl refl

returned : {A : Type 0} (a b : A) → returns a ≡ returns b → a ≡ b
returned a b e = cc e

abbrev requests : List (Request ℕ)
requests =
    init_request true
    ∷ start_request willing
    ∷ write_request all_frames (replicate 9 1)
    ∷ buffer_request true true 2048
    ∷ stop_request
    ∷ []

at_load-IsPlayable : IsPlayable physical_bytes at_load
at_load-IsPlayable = (
  record {
    unlocked = refl;
    matched = tt;
    balanced = refl;
    mixers_closed = refl;
    fits = tt;
    large_enough = omega arith;
    small_enough = omega arith;
    nothing_queued = refl;
  },
  λ e. absurd (cc e),
)

requests-AllAllowed : AllAllowed hundredths physical_bytes requests at_load
unfolding call init
requests-AllAllowed = (
  refl,
  λ r e. (
    subst (λ q. IsStartable q.1) (returned (success, configured 2 16) r e)
        (λ i. (omega arith, inr (inl refl))),
    λ q f. ((λ n. omega arith), λ o g. (tt, λ p h. (tt, λ t k. tt))),
  ),
)

run-IsPlayable_example :
    Returns
      (λ r. (length r.0 ≡ 5) × IsPlayable physical_bytes r.1)
      (run hundredths physical_bytes requests at_load)
run-IsPlayable_example =
    run-IsPlayable hundredths physical_bytes widths requests at_load at_load-IsPlayable
      requests-AllAllowed
