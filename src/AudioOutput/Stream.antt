-- ===== src/AudioOutput/Stream.antt =====
-- A stream from audio_output_start on: what audio_output_write hands to ALSA.
use airplay.Base.{
  ℕ, ◌≤◌, ◌<◌, ◌*◌, false, ◌≡◌, ◌⊎◌, inl, inr, some, List, length, arith, ℤ, pos, pos_part, success,
  failure, Returns, Returns-mono, Returns-both, faults, sym, ap, ◌∙◌,
}
use airplay.AudioOutput.State.{
  AudioConfig, PcmFormat, s8, s16_le, s24_le, s32_le, Pcm, Audio, frame_bytes, close_pcm,
}
use airplay.AudioOutput.Invariant.{IsSound}
use airplay.AudioOutput.Start.{PcmAnswers, format_of, start, Started, start-Started}
use airplay.AudioOutput.Write.{write, width, AgreesWith, write-IsSound, write_short}

-- ALSA stores 24-bit samples in four bytes.
pub record Widths (physical_bytes : PcmFormat → ℕ) : Type 0 where
  pub of_s8 : physical_bytes s8 ≡ 1
  pub of_s16 : physical_bytes s16_le ≡ 2
  pub of_s24 : physical_bytes s24_le ≡ 4
  pub of_s32 : physical_bytes s32_le ≡ 4

abbrev pub Packed : ℕ → Type 0
Packed bits = (bits ≡ 8) ⊎ (bits ≡ 16) ⊎ (bits ≡ 32)

-- The stream that `start` sets up.
abbrev pub stream : PcmAnswers → AudioConfig → Pcm
stream a c = record {
  handle = a.new_handle;
  format = format_of c.bits_per_sample;
  channels = c.channels;
}

abbrev pub Opened : PcmAnswers → Audio → ℤ × Audio → Type 0
Opened a s r =
    r.0 ≡ success
    → (r.1.pcm_handle ≡ some (stream a s.current_config)) × (r.1.current_config ≡ s.current_config)

start-Opened :
    (a : PcmAnswers) (s : Audio)
    → IsSound s
    → s.is_running ≡ false
    → 0 < frame_bytes s.current_config
    → Returns (Opened a s) (start a s)
unfolding start close_pcm
start-Opened a s v r d = ground arith

pub Started-IsSound :
    (a : PcmAnswers) (s : Audio) (q : ℤ × Audio) → Started a s q → q.0 ≡ success → IsSound q.1
Started-IsSound a s q (inl h) e = h.2
Started-IsSound a s q (inr h) e = absurd (cc (h.0, e))

pub Started-status :
    (a : PcmAnswers) (s : Audio) (q : ℤ × Audio) → Started a s q → (q.0 ≡ failure) ⊎ (q.0 ≡ success)
Started-status a s q (inl h) = inr h.0
Started-status a s q (inr h) = inl h.0

failed_or :
    {P : Type 0} (status : ℤ)
    → (status ≡ failure) ⊎ (status ≡ success)
    → (status ≡ success → P)
    → (status ≡ failure) ⊎ P
failed_or status (inl e) f = inl e
failed_or status (inr e) f = inr (f e)

frame_eq_24 : (c : AudioConfig) → c.bits_per_sample ≡ 24 → frame_bytes c ≡ 3 * c.channels
frame_eq_24 c b = ground arith

frame_of_24 : (c : AudioConfig) → c.bits_per_sample ≡ 24 → 0 < c.channels → 0 < frame_bytes c
frame_of_24 c b d = ground arith

module _ (physical_bytes : PcmFormat → ℕ) (widths : Widths physical_bytes) where
  width-Packed :
      (a : PcmAnswers) (c : AudioConfig)
      → Packed c.bits_per_sample
      → width physical_bytes (stream a c) ≡ frame_bytes c
  width-Packed a c b = ground arith

  width_short :
      (a : PcmAnswers) (c : AudioConfig)
      → c.bits_per_sample ≡ 24
      → 0 < c.channels
      → frame_bytes c < width physical_bytes (stream a c)
  width_short a c b d = ground arith

  abbrev pub Begun : PcmAnswers → Audio → ℤ × Audio → Type 0
  Begun a s r = Started a s r × Opened a s r

  pub start-Begun :
      (a : PcmAnswers) (s : Audio)
      → IsSound s
      → s.is_running ≡ false
      → 0 < frame_bytes s.current_config
      → Returns (Begun a s) (start a s)
  start-Begun a s v r d =
      Returns-both _ _ (start a s) (start-Started a s v r d) (start-Opened a s v r d)

  pub Begun-AgreesWith :
      (a : PcmAnswers) (s : Audio) (q : ℤ × Audio)
      → Begun a s q
      → q.0 ≡ success
      → Packed s.current_config.bits_per_sample
      → AgreesWith physical_bytes q.1.current_config q.1.pcm_handle
  Begun-AgreesWith a s q h e b = rw ((h.1 e).0, (h.1 e).1) (width-Packed a s.current_config b)

  -- For 8, 16 and 32 bits and a configured frame of a byte at least, a start of a stopped module in a state that
  -- satisfies the invariant fails with -1, or opens a stream on which a write of any bytes comes back, without an access past them, and
  -- changes nothing, whatever ALSA answers. ALSA takes no more frames than it is offered.
  pub write-start :
      (a : PcmAnswers) (answer : ℕ → ℤ) (bytes : List ℕ) (s : Audio)
      → IsSound s
      → s.is_running ≡ false
      → 0 < frame_bytes s.current_config
      → Packed s.current_config.bits_per_sample
      → ((n : ℕ) → pos_part (answer n) ≤ n)
      → Returns
          (λ r.
            (r.0 ≡ failure)
            ⊎ Returns
                (λ w. w.1 ≡ r.1)
                (write physical_bytes answer (some bytes) (length bytes) r.1))
          (start a s)
  write-start a answer bytes s v r d b k =
      Returns-mono _ _ (start a s) (start-Begun a s v r d) λ q h.
        failed_or q.0 (Started-status a s q h.0) λ e.
          write-IsSound physical_bytes answer bytes q.1 (Started-IsSound a s q h.0 e)
            (rw (h.1 e).1 d) (Begun-AgreesWith a s q h e b) k

  -- For 24 bits and at least one channel, a start of a stopped module in a state that satisfies the invariant fails
  -- with -1, or opens a stream on which a write of a positive number of whole frames, all of which ALSA takes, reads
  -- past the data: the code counts three bytes for a sample and asks for S24_LE, which has four.
  pub write-start_short :
      (a : PcmAnswers) (answer : ℕ → ℤ) (bytes : List ℕ) (n : ℕ) (s : Audio)
      → IsSound s
      → s.is_running ≡ false
      → 0 < s.current_config.channels
      → s.current_config.bits_per_sample ≡ 24
      → 0 < n
      → length bytes ≡ n * (3 * s.current_config.channels)
      → answer n ≡ pos n
      → Returns
          (λ r.
            (r.0 ≡ failure)
            ⊎ (write physical_bytes answer (some bytes) (length bytes) r.1 ≡ faults))
          (start a s)
  write-start_short a answer bytes n s v r c b z m k =
      Returns-mono _ _ (start a s) (start-Begun a s v r (frame_of_24 s.current_config b c)) λ q h.
        failed_or q.0 (Started-status a s q h.0) λ e.
          write_short physical_bytes answer bytes n q.1 (stream a s.current_config)
            (Started-IsSound a s q h.0 e) (h.1 e).0
            (rw (h.1 e).1 (frame_of_24 s.current_config b c))
            (rw (h.1 e).1 (width_short a s.current_config b c)) z
            (rw (h.1 e).1 (m ∙ ap (λ t. n * t) (sym (frame_eq_24 s.current_config b)))) k
