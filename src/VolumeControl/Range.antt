-- ===== src/VolumeControl/Range.antt =====
-- The volume stays between 0 and 1, and each call of src/volume_control.h comes back.
use airplay.Base.{
  ℕ, success, Bool, false, Option, List, [], ◌∷◌, ◌||◌, if◌then◌else◌, ℤ, M, ret, ◌>>=◌, FloatType,
  FloatLaws, Returns, Returns->>=, ◌≡◌, refl, arith, length, suc, ap,
}
use airplay.AudioOutput.Invariant.{IsSound}
use airplay.AudioOutput.Mixer
use airplay.AudioOutput.Mixer.{MixerAnswers}
use airplay.VolumeControl.{
  Volume, init, cleanup, set_volume, set_mute, step_up, step_down, set_callback, get_volume,
  is_muted,
}

-- A call of the interface. The getters' results do not matter here.
pub data Request (F : Type 0) : Type 0 where
  init_request cleanup_request step_up_request step_down_request : Request F
  get_volume_request is_muted_request : Request F
  set_volume_request : F → Request F
  set_mute_request : Bool → Request F
  callback_request : Option ℕ → Request F

module _ (fl : FloatType) where
  open fl use {F, lt, zero_f, one_f}

  -- Each call meets answers of the mixer of its own.
  unfoldable pub call : MixerAnswers → Request F → M (Volume F) ℤ
  unfolding init cleanup set_volume set_mute step_up step_down set_callback get_volume is_muted
  call m init_request = init fl
  call m cleanup_request = cleanup
  call m step_up_request = step_up fl m
  call m step_down_request = step_down fl m
  call m (set_volume_request volume) = set_volume fl m volume
  call m (set_mute_request mute) = set_mute fl m mute
  call m (callback_request f) = set_callback f
  call m get_volume_request = do _ ← get_volume; ret success
  call m is_muted_request = do _ ← is_muted; ret success

  -- Neither below 0 nor above 1. C's comparisons say so of a NaN too.
  abbrev pub InRange : F → Type 0
  InRange volume = (lt volume zero_f ≡ false) × (lt one_f volume ≡ false)

  pub record IsReady (s : Volume F) : Type 0 where
    pub unlocked : s.locked ≡ false
    pub in_range : InRange s.current_volume
    pub audio_sound : IsSound s.audio

  -- The volume after a step up or down.
  abbrev pub stepped_up : F → F
  stepped_up x = let y = fl.add_f x fl.step_f in if lt one_f y then one_f else y

  abbrev pub stepped_down : F → F
  stepped_down x = let y = fl.sub_f x fl.step_f in if lt y zero_f then zero_f else y

  -- The volume that a call asks for.
  abbrev pub target : Request F → F → F
  target init_request x = fl.half_f
  target step_up_request x = stepped_up x
  target step_down_request x = stepped_down x
  target (set_volume_request volume) x = if lt volume zero_f || lt one_f volume then x else volume
  target _ x = x

  abbrev pub Adjusted : Request F → Volume F → ℤ × Volume F → Type 0
  Adjusted c s r = IsReady r.1 × (r.1.current_volume ≡ target c s.current_volume)

  module _ (laws : FloatLaws fl) where
    -- For floats with the laws of IEEE 754: each call, from a state that satisfies the invariant, comes
    -- back in one that does, with the volume that the call asks for. The invariant has the mutex free, the
    -- volume neither below 0 nor above 1, and the audio output sound.
    pub call-IsReady :
        (m : MixerAnswers) (c : Request F) (s : Volume F)
        → IsReady s
        → Returns (Adjusted c s) (call m c s)
    unfolding call
    call-IsReady m init_request s v = ground arith
    call-IsReady m cleanup_request s v = ground arith
    call-IsReady m get_volume_request s v = ground arith
    call-IsReady m is_muted_request s v = ground arith
    call-IsReady m (callback_request f) s v = ground arith
    call-IsReady m (set_mute_request mute) s v = ground (
      arith,
      Mixer.set_volume-IsSound fl m (if mute then zero_f else s.current_volume) s.audio
          v.audio_sound,
    )
    call-IsReady m (set_volume_request x) s v = ground (
      arith,
      Mixer.set_volume-IsSound fl m (if s.is_muted then zero_f else x) s.audio v.audio_sound,
    )
    call-IsReady m step_up_request s v = ground (
      arith,
      laws.step_up s.current_volume,
      Mixer.set_volume-IsSound fl m (if s.is_muted then zero_f else stepped_up s.current_volume)
          s.audio v.audio_sound,
    )
    call-IsReady m step_down_request s v = ground (
      arith,
      laws.step_down s.current_volume,
      Mixer.set_volume-IsSound fl m (if s.is_muted then zero_f else stepped_down s.current_volume)
          s.audio v.audio_sound,
    )

  -- The calls of a client, each with what the mixer answers.
  unfoldable pub run : List (MixerAnswers × Request F) → M (Volume F) (List ℤ)
  run [] = ret []
  run ((m, c) ∷ cs) = do status ← call m c; rest ← run cs; ret (status ∷ rest)

  -- Any sequence of calls from a state that satisfies the invariant comes back with a status for each, in
  -- a state that does.
  pub run-IsReady :
      (laws : FloatLaws fl) (cs : List (MixerAnswers × Request F)) (s : Volume F)
      → IsReady s
      → Returns (λ r. (length r.0 ≡ length cs) × IsReady r.1) (run cs s)
  unfolding run
  run-IsReady laws [] s v = (refl, v)
  run-IsReady laws ((m, c) ∷ cs) s v =
      Returns->>= (Adjusted c s) _ (call m c) _ s (call-IsReady laws m c s v)
        λ a t u. Returns->>= _ _ (run cs) _ t (run-IsReady laws cs t u.0) λ b w x. (ap suc x.0, x.1)
