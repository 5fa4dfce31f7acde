-- ===== src/AudioOutput/Sessions.antt =====
-- Sequences of calls of src/audio_output.h.
use airplay.Base.{
  ℕ, suc, ap, ◌≡◌, ◌≤◌, ◌<◌, refl, arith, some, List, [], ◌∷◌, length, Bool-cases, inl, inr, ℤ,
  pos_part, returns, M, ret, ◌>>=◌, Returns, Returns-mono, Returns-both, Returns-eq, FloatType,
}
use airplay.AudioOutput.State.{PcmFormat, Audio, frame_bytes}
use airplay.AudioOutput.Lifecycle.{
  init, cleanup, configure, stop, init-IsSound, cleanup-IsSound, stop-IsSound,
}
use airplay.AudioOutput.Start.{PcmAnswers, start}
use airplay.AudioOutput.Write.{write, AgreesWith, write-IsSound}
use airplay.AudioOutput.Mixer.{set_volume, set_volume-IsSound}
use airplay.AudioOutput.Buffer.{set_buffer_size, set_buffer_size-IsSound}
use airplay.AudioOutput.Stream.{Widths, Packed, Begun, start-Begun, Begun-AgreesWith}
use airplay.AudioOutput.Calls.{
  Request, init_request, cleanup_request, stop_request, configure_request, start_request,
  write_request, volume_request, buffer_request, get_volume_request, is_running_request,
  get_buffer_size_request, get_available_space_request, call,
}
use airplay.AudioOutput.Playable.{
  IsPlayable, IsAllowed, IsStartable, idle-IsPlayable, init_idle, cleanup_idle, configure_idle,
  start_again, set_buffer_size-Steady, set_volume-Steady, Steady-IsPlayable, write_idle,
}

module _ (fl : FloatType) (physical_bytes : PcmFormat → ℕ) where
  open fl use {F}

  -- The calls of a client.
  unfoldable pub run : List (Request F) → M Audio (List ℤ)
  unfolding call
  run [] = ret []
  run (c ∷ cs) = do status ← call fl physical_bytes c; rest ← run cs; ret (status ∷ rest)

  -- Each call is allowed in the state in which it comes.
  abbrev pub AllAllowed : List (Request F) → Audio → Type 0
  AllAllowed [] s = Unit
  AllAllowed (c ∷ cs) s =
      IsAllowed physical_bytes c s
      × ((r : ℤ × Audio) → call fl physical_bytes c s ≡ returns r → AllAllowed cs r.1)

module _ (fl : FloatType) (physical_bytes : PcmFormat → ℕ) (widths : Widths physical_bytes) where
  open fl use {F}

  begun :
      (answers : PcmAnswers) (s : Audio)
      → IsPlayable physical_bytes s
      → (0 < frame_bytes s.current_config) × Packed s.current_config.bits_per_sample
      → (r : ℤ × Audio) → Begun physical_bytes widths answers s r
      → IsPlayable physical_bytes r.1
  begun answers s p a r (inl (ok, on, sound), opened) =
      let agrees : AgreesWith physical_bytes r.1.current_config r.1.pcm_handle =
        Begun-AgreesWith physical_bytes widths answers s r (inl (ok, on, sound), opened) ok a.1 in
      (sound, λ e. (rw (opened ok).1 (a.0), agrees))
  begun answers s p a r (inr (failed, same), opened) = rw same p

  start-IsPlayable :
      (answers : PcmAnswers) (s : Audio)
      → IsPlayable physical_bytes s
      → IsStartable s
      → Returns (λ r. IsPlayable physical_bytes r.1) (start answers s)
  start-IsPlayable answers s p a = elim (Bool-cases s.is_running) [
    | inl running ↦
        Returns-mono (λ r. r.1 ≡ s) (λ r. IsPlayable physical_bytes r.1) (start answers s)
          (start_again answers s p.0.unlocked running) λ r e. rw e p
    | inr idle ↦
        Returns-mono (Begun physical_bytes widths answers s) (λ r. IsPlayable physical_bytes r.1)
          (start answers s) (start-Begun physical_bytes widths answers s p.0 idle (a idle).0)
          (begun answers s p (a idle))
  ]

  write-IsPlayable :
      (answer : ℕ → ℤ) (bytes : List ℕ) (s : Audio)
      → IsPlayable physical_bytes s
      → ((n : ℕ) → pos_part (answer n) ≤ n)
      → Returns
          (λ r. IsPlayable physical_bytes r.1)
          (write physical_bytes answer (some bytes) (length bytes) s)
  write-IsPlayable answer bytes s p k =
      Returns-mono (λ r. r.1 ≡ s) (λ r. IsPlayable physical_bytes r.1) _
        (elim (Bool-cases s.is_running) [
          | inl running ↦
              write-IsSound physical_bytes answer bytes s p.0 (p.1 running).0 (p.1 running).1 k
          | inr idle ↦ write_idle physical_bytes answer bytes s p.0.unlocked idle
        ])
        λ r e. rw e p

  kept :
      (c : Request F) (s : Audio)
      → IsPlayable physical_bytes s
      → Returns (λ r. r.1 ≡ s) (call fl physical_bytes c s)
      → Returns (λ r. IsPlayable physical_bytes r.1) (call fl physical_bytes c s)
  kept c s p same =
      Returns-mono _ (λ r. IsPlayable physical_bytes r.1) (call fl physical_bytes c s) same
        λ r e. rw e p

  -- Each call, from a state in which it is allowed, comes back in a playable state.
  pub call-IsPlayable :
      (c : Request F) (s : Audio)
      → IsPlayable physical_bytes s
      → IsAllowed physical_bytes c s
      → Returns (λ r. IsPlayable physical_bytes r.1) (call fl physical_bytes c s)
  unfolding call
  call-IsPlayable (init_request granted) s p a =
      Returns-mono _ _ (init granted s)
        (Returns-both _ _ (init granted s) (init-IsSound granted s p.0)
          (init_idle granted s p.0.unlocked a))
        λ r h. idle-IsPlayable physical_bytes r.1 h.0.1 h.1
  call-IsPlayable cleanup_request s p a =
      Returns-mono _ _ (cleanup s)
        (Returns-both _ _ (cleanup s) (cleanup-IsSound s p.0 a) (cleanup_idle s p.0 a))
        λ r h. idle-IsPlayable physical_bytes r.1 h.0.3 h.1
  call-IsPlayable stop_request s p a =
      Returns-mono _ _ (stop s) (stop-IsSound s p.0)
        λ r h. idle-IsPlayable physical_bytes r.1 h.3 h.2
  call-IsPlayable (configure_request config) s p a =
      Returns-mono _ _ (configure config s) (configure_idle config s p.0 a)
        λ r h. idle-IsPlayable physical_bytes r.1 h.0 h.1
  call-IsPlayable (start_request answers) s p a = start-IsPlayable answers s p a
  call-IsPlayable (write_request answer bytes) s p a = write-IsPlayable answer bytes s p a
  call-IsPlayable (volume_request answers volume) s p a =
      Returns-mono _ _ (set_volume fl answers volume s)
        (Returns-both _ _ (set_volume fl answers volume s)
          (set_volume-IsSound fl answers volume s p.0)
          (set_volume-Steady fl answers volume s p.0.unlocked))
        λ r h. Steady-IsPlayable physical_bytes s r.1 p h.0 h.1
  call-IsPlayable (buffer_request first second size) s p a =
      Returns-mono _ _ (set_buffer_size first second size s)
        (Returns-both _ _ (set_buffer_size first second size s)
          (set_buffer_size-IsSound first second size s p.0)
          (set_buffer_size-Steady first second size s p.0.unlocked))
        λ r h. Steady-IsPlayable physical_bytes s r.1 p h.0 h.1
  call-IsPlayable (get_volume_request answers) s p a =
      kept (get_volume_request answers) s p (ground (arith, p.0))
  call-IsPlayable is_running_request s p a = kept is_running_request s p (ground (arith, p.0))
  call-IsPlayable get_buffer_size_request s p a =
      kept get_buffer_size_request s p (ground (arith, p.0))
  call-IsPlayable get_available_space_request s p a =
      kept get_available_space_request s p (ground (arith, p.0))

  -- A client that configures, initialises and cleans up only while the module does not run, and starts it with 8, 16
  -- or 32 bits to a sample and frames of a byte at least: from a playable state, such as the one at load, any sequence
  -- of its calls comes back with a status for each. No call waits for a mutex that is held, divides by zero, or reads
  -- past the data of a write, whatever ALSA and malloc answer, as long as ALSA takes no more frames than it is offered.
  -- The state is playable again: the stream is open exactly while the module runs, ALSA has given out no other handle
  -- and no mixer, and the buffer has the size that is recorded, between 1024 and 65536 bytes.
  pub run-IsPlayable :
      (cs : List (Request F)) (s : Audio)
      → IsPlayable physical_bytes s
      → AllAllowed fl physical_bytes cs s
      → Returns
          (λ r. (length r.0 ≡ length cs) × IsPlayable physical_bytes r.1)
          (run fl physical_bytes cs s)
  unfolding run
  run-IsPlayable [] s p a = (refl, p)
  run-IsPlayable (c ∷ cs) s p a =
      let ((status, t), e, q) =
        Returns-eq (λ r. IsPlayable physical_bytes r.1) (call fl physical_bytes c s)
          (call-IsPlayable c s p a.0) in
      let ((rest, u), f, (counted, v)) =
        Returns-eq _ (run fl physical_bytes cs t) (run-IsPlayable cs t q (a.1 (status, t) e)) in
      let whole : run fl physical_bytes (c ∷ cs) s ≡ returns (status ∷ rest, u) =
        ground (arith, e, f) in
      rw whole (ap suc counted, v)
