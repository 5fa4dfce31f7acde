-- ===== src/VolumeControl/Mute.antt =====
-- What a change of volume or of mute does to the audio output and to the client.
use airplay.Base.{
  ℕ, true, false, some, ◌∷◌, if◌then◌else◌, success, failure, returns, ◌>>=◌, FloatType, FloatLaws,
  Returns, ◌≡◌, arith, ◌⊎◌,
}
use airplay.AudioOutput.Mixer
use airplay.AudioOutput.Mixer.{MixerAnswers, reaches_element, mixer_volume}
use airplay.VolumeControl.{Volume, set_volume, set_mute}
use airplay.VolumeControl.Range.{
  Request, step_up_request, step_down_request, set_volume_request, set_mute_request, call, IsReady,
  stepped_up, stepped_down,
}

module _ (fl : FloatType) where
  open fl use {F, lt, zero_f, one_f}

  -- Without hardware volume, no call of the interface, from a state that satisfies the invariant, changes
  -- anything of the audio output.
  pub call_software :
      (m : MixerAnswers) (c : Request F) (s : Volume F)
      → IsReady fl s
      → s.audio.current_config.use_hw_volume ≡ false
      → Returns (λ r. r.1.audio ≡ s.audio) (call fl m c s)
  unfolding call
  call_software m (set_mute_request mute) s v h = ground (
    arith,
    Mixer.set_volume_software fl m (if mute then zero_f else s.current_volume) s.audio
        v.audio_sound.unlocked h,
  )
  call_software m (set_volume_request x) s v h = ground (
    arith,
    Mixer.set_volume_software fl m (if s.is_muted then zero_f else x) s.audio v.audio_sound.unlocked
        h,
  )
  call_software m step_up_request s v h = ground (
    arith,
    Mixer.set_volume_software fl m (if s.is_muted then zero_f else stepped_up fl s.current_volume)
        s.audio v.audio_sound.unlocked h,
  )
  call_software m step_down_request s v h = ground (
    arith,
    Mixer.set_volume_software fl m (if s.is_muted then zero_f else stepped_down fl s.current_volume)
        s.audio v.audio_sound.unlocked h,
  )
  call_software m _ s v h = ground arith

  -- A volume below 0 or above 1 is refused with -1 and nothing changes, whether or not the mutex is free.
  pub set_volume-refused :
      (m : MixerAnswers) (volume : F) (s : Volume F)
      → (lt volume zero_f ≡ true) ⊎ (lt one_f volume ≡ true)
      → set_volume fl m volume s ≡ returns (failure, s)
  unfolding set_volume
  set_volume-refused m volume s h = ground arith

  -- With hardware volume, a mixer that answers and a stream that runs, from a state that satisfies the
  -- invariant and is not muted: to mute and to unmute writes 0 and then the volume to the mixer, tells the
  -- client both, and leaves the volume as it was.
  pub mute_round :
      (m : MixerAnswers) (s : Volume F) (f : ℕ)
      → FloatLaws fl
      → IsReady fl s
      → s.is_muted ≡ false
      → s.volume_callback ≡ some f
      → s.audio.is_running ≡ true
      → s.audio.current_config.use_hw_volume ≡ true
      → (m.open_err ≡ success) × (reaches_element m ≡ true)
      → Returns
          (λ r.
            (r.1.current_volume ≡ s.current_volume)
            × (r.1.is_muted ≡ false)
            × (r.1.audio.mixer_volumes
                ≡ mixer_volume fl m s.current_volume
                  ∷ mixer_volume fl m zero_f
                  ∷ s.audio.mixer_volumes)
            × (r.1.calls
                ≡ record { callback = f; volume = s.current_volume; muted = false }
                  ∷ record { callback = f; volume = s.current_volume; muted = true }
                  ∷ s.calls))
          ((do _ ← set_mute fl m true; set_mute fl m false) s)
  unfolding set_mute
  mute_round m s f laws v u c r h a = ground (
    arith,
    Mixer.set_volume_hardware fl m zero_f s.audio v.audio_sound r h a,
    Mixer.set_volume_hardware fl m s.current_volume
        (record (s.audio) { mixer_volumes = mixer_volume fl m zero_f ∷ s.audio.mixer_volumes })
        (record {
          unlocked = v.audio_sound.unlocked;
          matched = v.audio_sound.matched;
          balanced = v.audio_sound.balanced;
          mixers_closed = v.audio_sound.mixers_closed;
          fits = v.audio_sound.fits;
          large_enough = v.audio_sound.large_enough;
          small_enough = v.audio_sound.small_enough;
          nothing_queued = v.audio_sound.nothing_queued;
        })
        r h a,
  )
