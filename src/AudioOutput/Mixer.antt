-- ===== src/AudioOutput/Mixer.antt =====
-- audio_output_set_volume and audio_output_get_volume.
use airplay.Base.{
  ◌+◌, ◌-◌, Bool, true, false, ◌&&◌, ◌||◌, ◌∷◌, if◌then◌else◌, ℤ, success, failure, eqb_ℤ, ◌+ℤ◌,
  ◌-ℤ◌, returns, M, ret, ◌>>=◌, ◌>>◌, get, modify, branch, when, FloatType, Returns, ◌≡◌, arith,
}
use airplay.AudioOutput.Invariant.{IsSound}
use airplay.AudioOutput.State.{Audio, lock, unlock, is_some}

-- What ALSA's mixer answers: the status of each call, whether "Master" is found, its range and volume.
pub record MixerAnswers : Type 0 where
  pub open_err : ℤ
  pub attach_err : ℤ
  pub register_err : ℤ
  pub load_err : ℤ
  pub found : Bool
  pub min_volume : ℤ
  pub max_volume : ℤ
  pub volume : ℤ

open_mixer : M Audio (Unit {0})
open_mixer = modify λ s. record s { open_mixers = s.open_mixers + 1 }

close_mixer : M Audio (Unit {0})
close_mixer = modify λ s. record s { open_mixers = s.open_mixers - 1 }

-- The nest of tests `if (… == 0)` up to the one that finds the element.
abbrev pub reaches_element : MixerAnswers → Bool
reaches_element m =
    eqb_ℤ m.attach_err success
    && eqb_ℤ m.register_err success
    && eqb_ℤ m.load_err success
    && m.found

module _ (fl : FloatType) where
  open fl use {F, lt, zero_f, one_f, half_f, mul_f, div_f, of_long, to_long}

  abbrev pub out_of_range : F → Bool
  out_of_range volume = lt volume zero_f || lt one_f volume

  abbrev pub mixer_volume : MixerAnswers → F → ℤ
  mixer_volume m volume =
      m.min_volume +ℤ to_long (mul_f (of_long (m.max_volume -ℤ m.min_volume)) volume)

  unfoldable pub set_volume : MixerAnswers → F → M Audio ℤ
  unfolding open_mixer close_mixer
  set_volume m volume = branch (out_of_range volume) (ret failure) do
    lock
    s ← get
    when (s.current_config.use_hw_volume && is_some s.pcm_handle) (
        when (eqb_ℤ m.open_err success) (do
          open_mixer
          when (reaches_element m)
              (modify λ s. record s { mixer_volumes = mixer_volume m volume ∷ s.mixer_volumes })
          close_mixer))
    unlock
    ret success

  unfoldable pub get_volume : MixerAnswers → M Audio F
  unfolding open_mixer close_mixer
  get_volume m = do
    lock
    s ← get
    let default = half_f
    volume ←
        branch (s.current_config.use_hw_volume && is_some s.pcm_handle && eqb_ℤ m.open_err success)
          (do
            open_mixer
            close_mixer
            ret (
                if reaches_element m
                then div_f (of_long (m.volume -ℤ m.min_volume))
                    (of_long (m.max_volume -ℤ m.min_volume))
                else default))
          (ret default)
    unlock
    ret volume

  pub set_volume-IsSound :
      (m : MixerAnswers) (volume : F) (s : Audio)
      → IsSound s
      → Returns (λ r. IsSound r.1) (set_volume m volume s)
  unfolding set_volume
  set_volume-IsSound m volume s v = ground arith

  -- Without hardware volume the call changes nothing.
  pub set_volume_software :
      (m : MixerAnswers) (volume : F) (s : Audio)
      → s.locked ≡ false
      → s.current_config.use_hw_volume ≡ false
      → Returns (λ r. r.1 ≡ s) (set_volume m volume s)
  unfolding set_volume
  set_volume_software m volume s l h = ground arith

  -- A running module in a state that satisfies the invariant, with hardware volume configured and a mixer
  -- that answers, writes one volume to the mixer for a volume that is in range: the minimum and the
  -- range times the volume. The call returns 0 and changes nothing else.
  pub set_volume_hardware :
      (m : MixerAnswers) (volume : F) (s : Audio)
      → IsSound s
      → s.is_running ≡ true
      → s.current_config.use_hw_volume ≡ true
      → (m.open_err ≡ success) × (reaches_element m ≡ true)
      → out_of_range volume ≡ false
      → set_volume m volume s
        ≡ returns (success, record s { mixer_volumes = mixer_volume m volume ∷ s.mixer_volumes })
  unfolding set_volume
  set_volume_hardware m volume s v r h a o = ground arith
