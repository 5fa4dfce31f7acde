-- ===== src/Daemon/Inits.antt =====
-- The inits of main, and the part of the server behind them.
use airplay.Base.{
  pos, if◌then◌else◌, none, [], failure, false, inl, inr, ◌⊎◌, Returns-mono, ◌≡◌, arith, Bool, true,
  Option, ℕ, List, All, ℤ, success, returns, Returns, Returns->>=, FloatType, sym, subst,
}
use airplay.Base.Kernel.{Kernel}
use airplay.AudioOutput.Lifecycle.{init as audio_output_init}
use airplay.VolumeControl.{on_audio, init as volume_control_init}
use airplay.PlaybackControl.{init as playback_control_init}
use airplay.Multiroom.Lifecycle.{init as multiroom_init, IsClosed}
use airplay.AirplayServer.State.{Server, create}
use airplay.AirplayServer.Lifecycle.{StartAnswers, start}
use airplay.AirplayServer.Process.{PassAnswers}
use airplay.Base.Descriptors.{count}
use airplay.Daemon.State.{Daemon, on_volume, on_playback, on_multiroom}
use airplay.Daemon.Program.{serve_until_signal, run_modules}
use airplay.Daemon.Parts.{IsQuiet}
use airplay.Daemon.Shutdown.{Ends, AllFresh}
use airplay.AirplayServer.Accept.{IsFresh}
use airplay.AirplayServer.Session.{Outcomes, start-Outcomes}
use airplay.Daemon.Failed.{closed_again, Keeps, Abandons, serve_without_memory, serve_after_failure}
use airplay.Daemon.Served.{LeavesClean, serve_until_signal_lem}

moved_start :
    (answers : StartAnswers) (v : Server) (k k' : Kernel)
    → k ≡ k'
    → start answers (create k) ≡ returns (failure, v)
    → start answers (create k') ≡ returns (failure, v)
moved_start answers v k k' p e = subst (λ x. start answers (create x) ≡ returns (failure, v)) p e

failed_shape :
    (answers : StartAnswers) (k : Kernel) (v : Server)
    → start answers (create k) ≡ returns (failure, v)
    → v ≡ record (create k) { socket_fd = answers.socket; avahi_client = v.avahi_client }
failed_shape answers k v e =
    elim (subst (Returns (Outcomes answers (create k))) e
      (start-Outcomes answers.socket answers (create k))) [
        | inl (ok, fd, up) ↦ absurd (cc ok)
        | inr (failed, shape) ↦ shape
      ]

module _ {F : Type 0} where
  -- Between two inits.
  abbrev pub Prepared : Kernel → Daemon F → Type 0
  Prepared k s = IsQuiet s × (s.kernel ≡ k) × (s.running ≡ true)

  abbrev pub Prepares : Kernel → ℤ × Daemon F → Type 0
  Prepares k r = (r.0 ≡ success) × Prepared k r.1

  audio-Prepares :
      (k : Kernel) (s : Daemon F)
      → Prepared k s
      → Returns (Prepares k) (on_volume (on_audio (audio_output_init true)) s)
  unfolding audio_output_init
  audio-Prepares k s p = ground arith

  playback-Prepares :
      (k : Kernel) (s : Daemon F)
      → Prepared k s
      → Returns (Prepares k) (on_playback playback_control_init s)
  unfolding playback_control_init
  playback-Prepares k s p = ground arith

  multiroom-Prepares :
      (k : Kernel) (s : Daemon F)
      → Prepared k s
      → Returns
          (λ r. Prepares k r × All IsClosed r.1.multiroom.slots)
          (on_multiroom multiroom_init s)
  unfolding multiroom_init
  multiroom-Prepares k s p = ground arith

  pub served_from :
      (answers : StartAnswers) (schedule : List (PassAnswers × Option ℕ)) (v : Server) (k : Kernel)
      (x : Daemon F)
      → Prepared k x
      → All IsClosed x.multiroom.slots
      → start answers (create k) ≡ returns (success, v)
      → Ends schedule
      → AllFresh schedule v
      → Returns
          (LeavesClean (λ n. count n k.open_fds) k.bad_closes)
          (serve_until_signal true answers schedule x)
  served_from answers schedule v k x p c e end fresh =
      subst
        (λ k'.
          Returns (LeavesClean (λ n. count n k'.open_fds) k'.bad_closes)
            (serve_until_signal true answers schedule x))
        p.1
        (serve_until_signal_lem answers schedule v x p.0 c p.2
          (subst (λ k'. start answers (create k') ≡ returns (success, v)) (sym p.1) e) end fresh)

  moved :
      (n : ℕ) (s x : Daemon F)
      → Prepared s.kernel x
      → (r : ℤ × Daemon F) → Abandons n x r
      → Abandons n s r
  moved n s x p r a =
      subst
        (λ k.
          (r.0 ≡ pos 1)
          × Keeps n k r.1.kernel
          × (r.1.volume.audio.audio_buffer ≡ none)
          × (r.1.volume.audio.open_pcms ≡ []))
        p.1 a

  pub abandoned_from :
      (created : Bool) (answers : StartAnswers) (schedule : List (PassAnswers × Option ℕ))
      (v : Server) (s x : Daemon F)
      → Prepared s.kernel x
      → All IsClosed x.multiroom.slots
      → IsFresh answers.socket s.kernel
      → (created ≡ false)
        ⊎ ((created ≡ true) × (start answers (create s.kernel) ≡ returns (failure, v)))
      → Returns
          (Abandons (if created then closed_again answers.socket else 0) s)
          (serve_until_signal created answers schedule x)
  abandoned_from created answers schedule v s x p c f (inl none_given) = rw none_given (
      Returns-mono (Abandons 0 x) (Abandons 0 s) _ (serve_without_memory answers schedule x p.0 c)
        (moved 0 s x p))
  abandoned_from created answers schedule v s x p c f (inr (given, e)) =
      let again : ℕ = closed_again answers.socket in
      rw given (
        Returns-mono (Abandons again x) (Abandons again s) _
          (serve_after_failure answers schedule v x p.0 c
            (subst (IsFresh answers.socket) (sym p.1) f)
            (moved_start answers v s.kernel x.kernel (sym p.1) e)
            (failed_shape answers x.kernel v (moved_start answers v s.kernel x.kernel (sym p.1) e)))
          (moved again s x p))

module _ (fl : FloatType) where
  open fl use {F}

  volume-Prepares :
      (k : Kernel) (s : Daemon F)
      → Prepared k s
      → Returns (Prepares k) (on_volume (volume_control_init fl) s)
  unfolding volume_control_init
  volume-Prepares k s p = ground arith

  -- The inits succeed, and what is left is the server's part.
  pub after_inits :
      (Final : ℤ × Daemon F → Type 0) (created : Bool) (answers : StartAnswers)
      (schedule : List (PassAnswers × Option ℕ)) (k : Kernel) (s : Daemon F)
      → Prepared k s
      → ((x : Daemon F)
          → Prepared k x
          → All IsClosed x.multiroom.slots
          → Returns Final (serve_until_signal created answers schedule x))
      → Returns Final (run_modules fl true created answers schedule s)
  unfolding run_modules
  after_inits Final created answers schedule k s p rest =
      Returns->>= (Prepares k) Final (on_volume (on_audio (audio_output_init true))) _ s
        (audio-Prepares k s p)
        λ a t h. rw h.0 (
          Returns->>= (Prepares k) Final (on_volume (volume_control_init fl)) _ t
            (volume-Prepares k t h.1)
            λ b u i. rw i.0 (
              Returns->>= (Prepares k) Final (on_playback playback_control_init) _ u
                (playback-Prepares k u i.1)
                λ c w j. rw j.0 (
                  Returns->>= (λ r. Prepares k r × All IsClosed r.1.multiroom.slots) Final
                    (on_multiroom multiroom_init) _ w (multiroom-Prepares k w j.1)
                    λ d x l. rw l.0.0 (rest x l.0.1 l.1))))
