-- ===== src/Daemon/Program.antt =====
-- main of src/main.c: the inits, the loop of the server under a schedule of signals, and the cleanups.
use airplay.Base.{
  ℕ, Bool, true, false, not, Option, none, some, List, [], ◌∷◌, ℤ, pos, success, eqb_ℤ, returns,
  blocks, M, ret, ◌>>=◌, ◌>>◌, get, modify, branch, FloatType,
}
use airplay.AudioOutput.Lifecycle.{init as audio_output_init, cleanup as audio_output_cleanup}
use airplay.VolumeControl.{on_audio, init as volume_control_init, cleanup as volume_control_cleanup}
use airplay.PlaybackControl.{init as playback_control_init, cleanup as playback_control_cleanup}
use airplay.Multiroom.Lifecycle.{init as multiroom_init, cleanup as multiroom_cleanup}
use airplay.AirplayServer.State.{create}
use airplay.AirplayServer.Lifecycle.{StartAnswers, start, stop, destroy}
use airplay.AirplayServer.Process.{PassAnswers, process}
use airplay.Daemon.State.{Launch, Daemon, on_volume, on_playback, on_multiroom, on_server}
use airplay.Daemon.Startup.{set_up, deliver}

module _ {F : Type 0} where
  -- The four cleanups, in the order in which main writes them.
  unfoldable pub cleanups : M (Daemon F) (Unit {0})
  unfolding multiroom_cleanup playback_control_cleanup volume_control_cleanup audio_output_cleanup
  cleanups = do
    _ ← on_multiroom multiroom_cleanup
    _ ← on_playback playback_control_cleanup
    _ ← on_volume volume_control_cleanup
    _ ← on_volume (on_audio audio_output_cleanup)
    ret tt

  abbrev pub close_log : M (Daemon F) (Unit {0})
  close_log = modify λ s. record s { log = none }

  -- `airplay_server_destroy(server)` frees the server.
  unfoldable pub destroy_server : M (Daemon F) (Unit {0})
  unfolding destroy
  destroy_server = do _ ← on_server destroy; modify λ s. record s { server = none }

  -- The loop, with the answers of the kernel in each pass and the signal that comes in it. A schedule that is used up while `running` is set leaves the program in its loop for ever.
  unfoldable pub loop : List (PassAnswers × Option ℕ) → M (Daemon F) (Unit {0})
  unfolding process
  loop [] = λ s. elim s.running [ true ↦ blocks | false ↦ returns (tt, s) ]
  loop ((answers, signal) ∷ schedule) = do
    s ← get
    branch (not s.running) (ret tt)
        do _ ← on_server (process answers); deliver signal; loop schedule

  -- The part of main from the creation of the server on. `created` says whether calloc gives memory.
  unfoldable pub serve_until_signal :
      Bool → StartAnswers → List (PassAnswers × Option ℕ) → M (Daemon F) ℤ
  unfolding start stop loop cleanups destroy_server
  serve_until_signal created answers schedule =
      branch (not created) (do cleanups; ret (pos 1))
        do
          modify λ s. record s { server = some (create s.kernel) }
          status ← on_server (start answers)
          branch (not (eqb_ℤ status success)) (do destroy_server; cleanups; ret (pos 1))
              do loop schedule; _ ← on_server stop; destroy_server; cleanups; close_log; ret success

module _ (fl : FloatType) where
  open fl use {F}

  -- main from its first init on, with the exit status; `granted` is the answer of the malloc in
  -- audio_output_init.
  unfoldable pub run_modules :
      Bool → Bool → StartAnswers → List (PassAnswers × Option ℕ) → M (Daemon F) ℤ
  unfolding audio_output_init audio_output_cleanup volume_control_init volume_control_cleanup
      playback_control_init playback_control_cleanup multiroom_init serve_until_signal
  run_modules granted created answers schedule = do
    audio ← on_volume (on_audio (audio_output_init granted))
    branch (not (eqb_ℤ audio success)) (ret (pos 1)) do
      volume ← on_volume (volume_control_init fl)
      branch (not (eqb_ℤ volume success))
          (do _ ← on_volume (on_audio audio_output_cleanup); ret (pos 1))
          do
            playback ← on_playback playback_control_init
            branch (not (eqb_ℤ playback success))
                (do
                  _ ← on_volume volume_control_cleanup
                  _ ← on_volume (on_audio audio_output_cleanup)
                  ret (pos 1))
                (do
                  multiroom ← on_multiroom multiroom_init
                  branch (not (eqb_ℤ multiroom success))
                      (do
                        _ ← on_playback playback_control_cleanup
                        _ ← on_volume volume_control_cleanup
                        _ ← on_volume (on_audio audio_output_cleanup)
                        ret (pos 1))
                      (serve_until_signal created answers schedule))

  unfoldable pub main :
      Launch → Bool → Bool → StartAnswers → List (PassAnswers × Option ℕ) → M (Daemon F) ℤ
  unfolding set_up run_modules
  main launch granted created answers schedule = do
    accepted ← set_up launch
    branch accepted (run_modules granted created answers schedule) (ret (pos 1))
