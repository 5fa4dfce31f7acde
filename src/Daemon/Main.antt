-- ===== src/Daemon/Main.antt =====
-- main from its start to the exit.
use airplay.AudioOutput.State.{Audio}
use airplay.AudioOutput.Invariant.{IsSound}
use airplay.Base.{
  ◌&&◌, ◌==◌, if◌then◌else◌, none, [], Returns-eq, inl, inr, failure, false, ◌⊎◌, ◌≡◌, refl, arith,
  Bool, true, Option, ℕ, List, All, ℤ, success, returns, Returns, FloatType,
}
use airplay.AudioOutput.Lifecycle.{init as audio_output_init}
use airplay.AirplayServer.State.{Server, create}
use airplay.AirplayServer.Lifecycle.{StartAnswers, start}
use airplay.AirplayServer.Process.{PassAnswers}
use airplay.Base.Descriptors.{count}
use airplay.Daemon.State.{Log, Daemon, Launch}
use airplay.Daemon.Program.{run_modules, main}
use airplay.Daemon.Options.{IsOption, last_of, ready, set_up_accepted}
use airplay.Daemon.Parts.{IsQuiet}
use airplay.Daemon.Shutdown.{Ends, AllFresh}
use airplay.AirplayServer.Accept.{IsFresh}
use airplay.Daemon.Failed.{closed_again, Abandons}
use airplay.Daemon.Served.{LeavesClean}
use airplay.Daemon.Inits.{served_from, abandoned_from, after_inits}

init_without_memory :
    (a : Audio)
    → IsSound a
    → a.is_running ≡ false
    → Returns
        (λ r. (r.0 ≡ failure) × (r.1.audio_buffer ≡ none) × (r.1.open_pcms ≡ []))
        (audio_output_init false a)
unfolding audio_output_init
init_without_memory a v r = ground arith

module _ (fl : FloatType) where
  open fl use {F}

  IsQuiet-ready : (d : Bool) (l : Log) (s : Daemon F) → IsQuiet s → IsQuiet (ready d l s)
  IsQuiet-ready d l s q = record {
    volume_unlocked = q.volume_unlocked;
    audio_sound = q.audio_sound;
    audio_idle = q.audio_idle;
    playback_unlocked = q.playback_unlocked;
    multiroom_unlocked = q.multiroom_unlocked;
    multiroom_idle = q.multiroom_idle;
  }

  -- main on options that it takes.
  accepted :
      (Final : ℤ × Daemon F → Type 0) (launch : Launch) (granted created : Bool)
      (answers : StartAnswers) (schedule : List (PassAnswers × Option ℕ)) (s : Daemon F)
      → All IsOption launch.options
      → ((d : Bool) (l : Log)
          → Returns Final (run_modules fl granted created answers schedule (ready d l s)))
      → Returns Final (main fl launch granted created answers schedule s)
  unfolding main
  accepted Final launch granted created answers schedule s h rest =
      let daemonize = last_of b'f' launch.options == b'f' in
      let d = if daemonize then launch.forked else s.detached in
      let l : Log = record { option = 3; facility = if daemonize then 24 else 32 } in
      let e = set_up_accepted launch s h in
      let run : main fl launch granted created answers schedule s
          ≡ run_modules fl granted created answers schedule (ready d l s) =
        ground (arith, e) in
      rw run (rest d l)

  -- main, with options of -d and -f, quiet modules, memory for the buffer and the server, a start that
  -- succeeds, and a schedule of passes in which accept gives no open descriptor and a SIGTERM or SIGINT comes:
  -- it leaves its loop and exits with 0. As many descriptors of each number are open as before, none that was
  -- not open was closed, no ALSA stream is open, the audio buffer is freed, and the log is closed.
  pub main_lem :
      (launch : Launch) (answers : StartAnswers) (schedule : List (PassAnswers × Option ℕ))
      (v : Server) (s : Daemon F)
      → All IsOption launch.options
      → IsQuiet s
      → s.running ≡ true
      → start answers (create s.kernel) ≡ returns (success, v)
      → Ends schedule
      → AllFresh schedule v
      → Returns
          (LeavesClean (λ n. count n s.kernel.open_fds) s.kernel.bad_closes)
          (main fl launch true true answers schedule s)
  main_lem launch answers schedule v s o q r e end fresh =
      let Final : ℤ × Daemon F → Type 0 =
        LeavesClean (λ n. count n s.kernel.open_fds) s.kernel.bad_closes in
      accepted Final launch true true answers schedule s o λ d l.
        after_inits fl Final true answers schedule s.kernel (ready d l s)
          (IsQuiet-ready d l s q, refl, r)
          λ x p c. served_from answers schedule v s.kernel x p c e end fresh

  -- With memory for it, the inits succeed.
  behind_inits :
      (created : Bool) (answers : StartAnswers) (schedule : List (PassAnswers × Option ℕ))
      (v : Server) (s : Daemon F) (d : Bool) (l : Log)
      → IsQuiet s
      → s.running ≡ true
      → IsFresh answers.socket s.kernel
      → (created ≡ false)
        ⊎ ((created ≡ true) × (start answers (create s.kernel) ≡ returns (failure, v)))
      → Returns
          (Abandons (if created then closed_again answers.socket else 0) s)
          (run_modules fl true created answers schedule (ready d l s))
  behind_inits created answers schedule v s d l q r f h =
      after_inits fl (Abandons (if created then closed_again answers.socket else 0) s) created
        answers schedule s.kernel (ready d l s) (IsQuiet-ready d l s q, refl, r)
        λ x p c. abandoned_from created answers schedule v s x p c f h

  -- Without memory for the audio buffer main stops behind the first init.
  no_buffer :
      (created : Bool) (answers : StartAnswers) (schedule : List (PassAnswers × Option ℕ))
      (s : Daemon F)
      → IsQuiet s
      → Returns (Abandons 0 s) (run_modules fl false created answers schedule s)
  unfolding run_modules
  no_buffer created answers schedule s q =
      let ((status, t), e, h) =
        Returns-eq _ (audio_output_init false s.volume.audio)
          (init_without_memory s.volume.audio q.audio_sound q.audio_idle) in
      ground (arith, e, h)

  -- main, with options of -d and -f and quiet modules, where there is no memory for the audio buffer or for the
  -- server, or the start of the server fails and socket gave no open descriptor: it exits with 1, whatever the
  -- schedule. The open descriptors are what they were, no ALSA stream is open, and there is no audio buffer. Where
  -- the start fails behind its socket, close is called once on a descriptor that is closed already; in the other
  -- cases it is not.
  pub main-Abandons :
      (launch : Launch) (granted created : Bool) (answers : StartAnswers)
      (schedule : List (PassAnswers × Option ℕ)) (v : Server) (s : Daemon F)
      → All IsOption launch.options
      → IsQuiet s
      → s.running ≡ true
      → IsFresh answers.socket s.kernel
      → (granted ≡ false)
        ⊎ ((granted ≡ true) × (created ≡ false))
        ⊎ ((granted ≡ true)
            × (created ≡ true)
            × (start answers (create s.kernel) ≡ returns (failure, v)))
      → Returns
          (Abandons (if granted && created then closed_again answers.socket else 0) s)
          (main fl launch granted created answers schedule s)
  main-Abandons launch granted created answers schedule v s o q r f h =
      accepted (Abandons (if granted && created then closed_again answers.socket else 0) s) launch
        granted created answers schedule s o
        λ d l. elim h [
          | inl none_given ↦
              rw none_given
                (no_buffer created answers schedule (ready d l s) (IsQuiet-ready d l s q))
          | inr (inl (given, no_server)) ↦
              rw given (behind_inits created answers schedule v s d l q r f (inl no_server))
          | inr (inr (given, server_given, e)) ↦
              rw given (behind_inits created answers schedule v s d l q r f (inr (server_given, e)))
        ]
