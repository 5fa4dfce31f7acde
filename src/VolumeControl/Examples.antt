-- ===== src/VolumeControl/Examples.antt =====
-- The volume control on a concrete float type and concrete answers of the mixer. The floats stand in
-- hundredths.
use airplay.Base.{
  ℕ, ◌+◌, ◌≡◌, refl, arith, true, false, some, [], ◌∷◌, ltb, ltb-false, pos, success, ◌>>=◌,
  Returns, FloatLaws,
}
use airplay.Base.Hundredths.{hundredths}
use airplay.AudioOutput.State.{Audio, s16_le, at_load, default_device}
use airplay.AudioOutput.Invariant.{IsSound}
use airplay.AudioOutput.Mixer.{MixerAnswers, mixer_volume}
use airplay.VolumeControl.{Volume, set_mute}
use airplay.VolumeControl.Range.{step_up_request, call, IsReady, Adjusted, call-IsReady}
use airplay.VolumeControl.Mute.{mute_round}

not_negative : (x : ℕ) → ltb x 0 ≡ false
not_negative x = ltb-false x 0 (omega arith)

hundredths-FloatLaws : FloatLaws hundredths
hundredths-FloatLaws = record {
  zero_not_negative = not_negative 0;
  one_not_negative = not_negative 100;
  one_le_one = refl;
  half_not_negative = not_negative 50;
  half_le_one = refl;
  step_up = λ x h. not_negative (x + 5);
  step_down = λ x h. ground arith;
}

-- A running output with hardware volume.
abbrev audio : Audio
audio = record at_load {
  is_running = true;
  pcm_handle = some (record { handle = 3; format = s16_le; channels = 2 });
  open_pcms = 3 ∷ [];
  current_config = record {
    sample_rate = 44100;
    channels = 2;
    bits_per_sample = 16;
    device_name = default_device;
    use_hw_volume = true;
  };
}

audio-IsSound : IsSound audio
audio-IsSound = record {
  unlocked = refl;
  matched = tt;
  balanced = refl;
  mixers_closed = refl;
  fits = tt;
  large_enough = omega arith;
  small_enough = omega arith;
  nothing_queued = refl;
}

software-IsSound : IsSound at_load
software-IsSound = record {
  unlocked = refl;
  matched = tt;
  balanced = refl;
  mixers_closed = refl;
  fits = tt;
  large_enough = omega arith;
  small_enough = omega arith;
  nothing_queued = refl;
}

abbrev volume : Volume ℕ
volume = record {
  locked = false;
  current_volume = 98;
  is_muted = false;
  volume_callback = some 4;
  calls = [];
  audio = audio;
}

volume-IsReady : IsReady hundredths volume
volume-IsReady = record { unlocked = refl; in_range = (refl, refl); audio_sound = audio-IsSound }

abbrev software : Volume ℕ
software = record volume { audio = at_load }

software-IsReady : IsReady hundredths software
software-IsReady = record {
  unlocked = refl;
  in_range = (refl, refl);
  audio_sound = software-IsSound;
}

abbrev mixer : MixerAnswers
mixer = record {
  open_err = success;
  attach_err = success;
  register_err = success;
  load_err = success;
  found = true;
  min_volume = pos 0;
  max_volume = pos 64;
  volume = pos 32;
}

call-IsReady_example :
    Returns
      (Adjusted hundredths step_up_request volume)
      (call hundredths mixer step_up_request volume)
call-IsReady_example =
    call-IsReady hundredths hundredths-FloatLaws mixer step_up_request volume volume-IsReady

mute_round_example :
    Returns
      (λ r.
        (r.1.current_volume ≡ 98)
        × (r.1.is_muted ≡ false)
        × (r.1.audio.mixer_volumes
            ≡ mixer_volume hundredths mixer 98 ∷ mixer_volume hundredths mixer 0 ∷ [])
        × (r.1.calls
            ≡ record { callback = 4; volume = 98; muted = false }
              ∷ record { callback = 4; volume = 98; muted = true }
              ∷ []))
      ((do _ ← set_mute hundredths mixer true; set_mute hundredths mixer false) volume)
mute_round_example =
    mute_round hundredths mixer volume 4 hundredths-FloatLaws volume-IsReady refl refl refl refl
      (refl, refl)
