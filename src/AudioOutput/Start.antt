-- ===== src/AudioOutput/Start.antt =====
-- audio_output_start.
use airplay.Base.{
  ℕ, ◌<◌, Bool, true, false, not, ◌&&◌, none, some, ◌∷◌, ◌==◌, if◌then◌else◌, ℤ, success, failure,
  is_negative, faults, M, ret, ◌>>=◌, ◌>>◌, get, modify, branch, Returns, ◌≡◌, arith, ◌⊎◌, inl, inr,
  Bool-cases,
}
use airplay.AudioOutput.Invariant.{IsSound}
use airplay.AudioOutput.State.{
  AudioConfig, PcmFormat, s8, s16_le, s24_le, s32_le, Pcm, Audio, lock, unlock, close_pcm, divide,
  frame_bytes,
}

-- What ALSA answers in the course of `start`: the new handle, and the status of each call.
pub record PcmAnswers : Type 0 where
  pub new_handle : ℕ
  pub open_err : ℤ
  pub any_err : ℤ
  pub access_err : ℤ
  pub format_err : ℤ
  pub rate_err : ℤ
  pub channels_err : ℤ
  pub buffer_size_err : ℤ
  pub params_err : ℤ
  pub prepare_err : ℤ

-- The `switch` on `bits_per_sample`.
abbrev pub format_of : ℕ → PcmFormat
format_of bits =
    if bits == 8
    then s8
    else if bits == 16
    then s16_le
    else if bits == 24
    then s24_le
    else if bits == 32
    then s32_le
    else s16_le

-- The error path that every step of the set-up shares.
abandon : M Audio ℤ
unfolding close_pcm
abandon = do close_pcm; unlock; ret failure

abbrev try : ℤ → M Audio ℤ → M Audio ℤ
try err rest = branch (is_negative err) abandon rest

set_pcm : (Pcm → Pcm) → M Audio (Unit {0})
set_pcm f =
    modify λ s. record s { pcm_handle = elim s.pcm_handle [ none ↦ none | some p ↦ some (f p) ] }

-- The second half of `start`: from the channels to the end.
start_channels : PcmAnswers → M Audio ℤ
unfolding abandon set_pcm
start_channels answers = try answers.channels_err do
  s ← get
  set_pcm λ p. record p { channels = s.current_config.channels }
  _ ← divide s.buffer_size (frame_bytes s.current_config)
  try answers.buffer_size_err (
      try answers.params_err (
        try answers.prepare_err
          (do modify λ s. record s { is_running = true }; unlock; ret success)))

unfoldable pub start : PcmAnswers → M Audio ℤ
unfolding start_channels abandon set_pcm
start answers = do
  lock
  s ← get
  branch s.is_running (do unlock; ret success)
      (branch (is_negative answers.open_err) (do unlock; ret failure)
        (do
          modify λ s. record s {
            pcm_handle =
                some (record { handle = answers.new_handle; format = s16_le; channels = 0 });
            open_pcms = answers.new_handle ∷ s.open_pcms;
          }
          try answers.any_err (
              try answers.access_err (
                try answers.format_err (do
                  set_pcm λ p. record p { format = format_of s.current_config.bits_per_sample }
                  try answers.rate_err (start_channels answers))))))

-- No call that `start` makes before and after the division fails.
abbrev pub willing_to_start : PcmAnswers → Bool
willing_to_start a =
    not (is_negative a.open_err)
    && not (is_negative a.any_err)
    && not (is_negative a.access_err)
    && not (is_negative a.format_err)
    && not (is_negative a.rate_err)
    && not (is_negative a.channels_err)

abbrev pub Started : PcmAnswers → Audio → ℤ × Audio → Type 0
Started a s r =
    ((r.0 ≡ success) × (r.1.is_running ≡ true) × IsSound r.1) ⊎ ((r.0 ≡ failure) × (r.1 ≡ s))

-- A start of a stopped module in a state that satisfies the invariant, whose configured frame has a byte
-- at least, is all or nothing, whatever ALSA answers: it returns 0 with the stream open, the module
-- running and the invariant kept, or returns -1 and the state is what it was.
pub start-Started :
    (a : PcmAnswers) (s : Audio)
    → IsSound s
    → s.is_running ≡ false
    → 0 < frame_bytes s.current_config
    → Returns (Started a s) (start a s)
unfolding start close_pcm
start-Started a s v r d = ground arith

start-faults :
    (a : PcmAnswers) (s : Audio)
    → s.locked ≡ false
    → s.is_running ≡ false
    → frame_bytes s.current_config ≡ 0
    → willing_to_start a ≡ true
    → start a s ≡ faults
unfolding start close_pcm
start-faults a s l r d w = ground arith

unwilling-Started :
    (a : PcmAnswers) (s : Audio)
    → IsSound s
    → s.is_running ≡ false
    → willing_to_start a ≡ false
    → Returns (Started a s) (start a s)
unfolding start close_pcm
unwilling-Started a s v r w = ground arith

frame_cases : (c : AudioConfig) → (frame_bytes c ≡ 0) ⊎ (0 < frame_bytes c)
frame_cases c = ground arith

-- A start of a stopped module in a state that satisfies the invariant, whatever ALSA answers, is all or nothing: it
-- returns 0 with the stream open, the module running and the invariant kept, or returns -1 and the state is what it
-- was. There is one exception: where the configured frame has less than a byte (channels * bits_per_sample < 8) and
-- ALSA accepts the stream up to its channels, it divides by zero.
pub start_lem :
    (a : PcmAnswers) (s : Audio)
    → IsSound s
    → s.is_running ≡ false
    → Returns (Started a s) (start a s)
      ⊎ ((frame_bytes s.current_config ≡ 0) × (willing_to_start a ≡ true) × (start a s ≡ faults))
start_lem a s v r = elim (frame_cases s.current_config) [
  | inr some_bytes ↦ inl (start-Started a s v r some_bytes)
  | inl empty ↦ elim (Bool-cases (willing_to_start a)) [
    | inl w ↦ inr (empty, w, start-faults a s v.unlocked r empty w)
    | inr w ↦ inl (unwilling-Started a s v r w)
  ]
]
