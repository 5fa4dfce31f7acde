-- ===== src/AudioOutput/Write.antt =====
-- audio_output_write.
use airplay.Base.{
  ℕ, ◌*◌, ◌/◌, ◌≤◌, ◌<◌, true, false, not, ◌&&◌, ◌||◌, Option, none, some, List, length, ltb, ◌==◌,
  ℤ, pos, negsuc, success, failure, is_negative, pos_part, eqb_ℤ, returns, faults, M, ret, ◌>>=◌,
  ◌>>◌, get, branch, Returns, ◌≡◌, arith,
}
use airplay.AudioOutput.Invariant.{IsSound}
use airplay.AudioOutput.State.{
  AudioConfig, PcmFormat, Pcm, Audio, lock, unlock, is_some, divide, frame_bytes,
}

-- As many frames as fit leave nothing to read past the data.
reads_within : (a n f : ℕ) → a ≤ n / f → a * f ≤ n
reads_within a n f h = grind arith

quotient_exact : (n f : ℕ) → 0 < f → n * f / f ≡ n
quotient_exact n f h = grind arith

reads_past : (n f w : ℕ) → 0 < n → f < w → n * f < n * w
reads_past n f w h k = grind arith

product_pos : (n f : ℕ) → 0 < n → 0 < f → 0 < n * f
product_pos n f h k = grind arith

-- `physical_bytes` is what ALSA stores a sample of a format in.
module _ (physical_bytes : PcmFormat → ℕ) where
  -- Bytes to a frame, as ALSA reads them.
  abbrev pub width : Pcm → ℕ
  width p = p.channels * physical_bytes p.format

  -- snd_pcm_writei, which answers how many frames it took or an error: it has read that many frames
  -- of the stream as it was set up. Past the data this is undefined.
  abbrev writei : List ℕ → ℤ → M Audio (Unit {0})
  writei bytes answer s = elim s.pcm_handle [
    | none ↦ faults
    | some p ↦ elim (ltb (length bytes) (pos_part answer * width p)) [
      | true ↦ faults
      | false ↦ returns (tt, s)
    ]
  ]

  -- `bytes` is none where the pointer is NULL. `answer` is what snd_pcm_writei gives for the number
  -- of frames that it is asked for; -32 is -EPIPE.
  unfoldable pub write : (ℕ → ℤ) → Option (List ℕ) → ℕ → M Audio ℤ
  write answer none size = ret failure
  write answer (some bytes) size = branch (size == 0) (ret failure) do
    lock
    s ← get
    branch (not s.is_running || not (is_some s.pcm_handle)) (do unlock; ret failure)
        do
          frames ← divide size (frame_bytes s.current_config)
          let frames_written = answer frames
          writei bytes frames_written
          branch (is_negative frames_written && not (eqb_ℤ frames_written (negsuc 31)))
              (do unlock; ret failure) (do unlock; ret success)

  -- The stream's frames are as long as the configuration says.
  abbrev pub AgreesWith : AudioConfig → Option Pcm → Type 0
  AgreesWith c none = Unit {0}
  AgreesWith c (some p) = width p ≡ frame_bytes c

  -- A write in a sound state with a stream that agrees with the configuration changes nothing.
  pub write-IsSound :
      (answer : ℕ → ℤ) (bytes : List ℕ) (s : Audio)
      → IsSound s
      → 0 < frame_bytes s.current_config
      → AgreesWith s.current_config s.pcm_handle
      → ((n : ℕ) → pos_part (answer n) ≤ n)
      → Returns (λ r. r.1 ≡ s) (write answer (some bytes) (length bytes) s)
  unfolding write
  write-IsSound answer bytes s v d a k = ground (
    arith,
    k (length bytes / frame_bytes s.current_config),
    reads_within (pos_part (answer (length bytes / frame_bytes s.current_config))) (length bytes)
        (frame_bytes s.current_config),
  )

  -- Whole frames, all taken, where the stream's frame is longer than the module counts.
  pub write_short :
      (answer : ℕ → ℤ) (bytes : List ℕ) (n : ℕ) (s : Audio) (p : Pcm)
      → IsSound s
      → s.pcm_handle ≡ some p
      → 0 < frame_bytes s.current_config
      → frame_bytes s.current_config < width p
      → 0 < n
      → length bytes ≡ n * frame_bytes s.current_config
      → answer n ≡ pos n
      → write answer (some bytes) (length bytes) s ≡ faults
  unfolding write
  write_short answer bytes n s p v e d w z m k = ground (
    arith,
    quotient_exact n (frame_bytes s.current_config),
    reads_past n (frame_bytes s.current_config) (width p),
    product_pos n (frame_bytes s.current_config),
  )
