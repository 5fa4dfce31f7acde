-- ===== src/VolumeControl.antt =====
-- src/volume_control.c and src/volume_control.h, over a type of floats. The module's static
-- variables are one record, beside those of the audio output that it calls.
pub mod Range
pub mod Mute
mod Examples
use airplay.Base.{
  ℕ, Bool, true, false, Option, none, some, List, [], ◌∷◌, ◌||◌, if◌then◌else◌, ℤ, success, failure,
  returns, blocks, faults, M, ret, ◌>>=◌, ◌>>◌, get, modify, branch, FloatType,
}
use airplay.AudioOutput.State.{Audio}
use airplay.AudioOutput.Mixer
use airplay.AudioOutput.Mixer.{MixerAnswers}

-- A call through the client's pointer: the function, the volume and whether it is muted.
pub record Call (F : Type 0) : Type 0 where
  pub callback : ℕ
  pub volume : F
  pub muted : Bool

-- `calls` records the calls made through `volume_callback`, newest first.
pub record Volume (F : Type 0) : Type 0 where
  pub locked : Bool
  pub current_volume : F
  pub is_muted : Bool
  pub volume_callback : Option ℕ
  pub calls : List (Call F)
  pub audio : Audio

module _ {F : Type 0} where
  -- pthread_mutex_lock on a plain mutex: a thread that holds it already waits for ever.
  abbrev lock : M (Volume F) (Unit {0})
  lock s = elim s.locked [ true ↦ blocks | false ↦ returns (tt, record s { locked = true }) ]

  abbrev unlock : M (Volume F) (Unit {0})
  unlock = modify λ s. record s { locked = false }

  -- A call of a function of the audio output.
  abbrev pub on_audio : {A : Type 0} → M Audio A → M (Volume F) A
  on_audio m s = elim (m s.audio) [
    | returns (a, t) ↦ returns (a, record s { audio = t })
    | blocks ↦ blocks
    | faults ↦ faults
  ]

  abbrev called : Volume F → List (Call F)
  called s = elim s.volume_callback [
    | none ↦ s.calls
    | some f ↦ record { callback = f; volume = s.current_volume; muted = s.is_muted } ∷ s.calls
  ]

  notify : M (Volume F) (Unit {0})
  notify = modify λ s. record s { calls = called s }

  unfoldable pub cleanup : M (Volume F) ℤ
  cleanup = do lock; modify λ s. record s { volume_callback = none }; unlock; ret success

  pub get_volume : M (Volume F) F
  get_volume = do lock; s ← get; unlock; ret s.current_volume

  pub is_muted : M (Volume F) Bool
  is_muted = do lock; s ← get; unlock; ret s.is_muted

  pub set_callback : Option ℕ → M (Volume F) ℤ
  set_callback callback = do
    lock
    modify λ s. record s { volume_callback = callback }
    unlock
    ret success

module _ (fl : FloatType) where
  open fl use {F, lt, zero_f, one_f, half_f, step_f, add_f, sub_f}

  -- `audio_output_set_volume(is_muted ? 0.0f : current_volume);`
  abbrev applied : Volume F → F
  applied s = if s.is_muted then zero_f else s.current_volume

  apply_volume : MixerAnswers → M (Volume F) (Unit {0})
  apply_volume m = do s ← get; _ ← on_audio (Mixer.set_volume fl m (applied s)); ret tt

  assign_volume : F → M (Volume F) (Unit {0})
  assign_volume volume = modify λ s. record s { current_volume = volume }

  unfoldable pub init : M (Volume F) ℤ
  init = do
    lock
    modify λ s. record s { current_volume = half_f; is_muted = false }
    unlock
    ret success

  pub set_volume : MixerAnswers → F → M (Volume F) ℤ
  unfolding notify apply_volume assign_volume
  set_volume m volume =
      branch (lt volume zero_f || lt one_f volume) (ret failure)
        do lock; assign_volume volume; apply_volume m; notify; unlock; ret success

  pub set_mute : MixerAnswers → Bool → M (Volume F) ℤ
  unfolding notify apply_volume
  set_mute m mute = do
    lock
    modify λ s. record s { is_muted = mute }
    apply_volume m
    notify
    unlock
    ret success

  pub step_up : MixerAnswers → M (Volume F) ℤ
  unfolding notify apply_volume assign_volume
  step_up m = do
    lock
    s ← get
    let new_volume = add_f s.current_volume step_f
    assign_volume (if lt one_f new_volume then one_f else new_volume)
    apply_volume m
    notify
    unlock
    ret success

  pub step_down : MixerAnswers → M (Volume F) ℤ
  unfolding notify apply_volume assign_volume
  step_down m = do
    lock
    s ← get
    let new_volume = sub_f s.current_volume step_f
    assign_volume (if lt new_volume zero_f then zero_f else new_volume)
    apply_volume m
    notify
    unlock
    ret success
