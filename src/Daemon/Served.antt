-- ===== src/Daemon/Served.antt =====
-- The server's part of main, from its creation to the exit.
use airplay.Base.{
  ℕ, ◌≡◌, refl, arith, true, false, Option, none, List, [], ◌∷◌, All, ℤ, negsuc, success, returns,
  M, ret, ◌>>=◌, ◌>>◌, Returns, Returns-eq, Returns-both, if◌then◌else◌,
}
use airplay.Base.Kernel.{Kernel, closed}
use airplay.Multiroom.Lifecycle.{IsClosed}
use airplay.AirplayServer.State.{Server, Client, create}
use airplay.AirplayServer.Lifecycle.{StartAnswers, start, stop, destroy, close_clients}
use airplay.AirplayServer.Process.{PassAnswers}
use airplay.AirplayServer.Pass.{IsUp}
use airplay.Base.Descriptors.{count}
use airplay.AirplayServer.Session.{Stopped, stop-Stopped}
use airplay.AirplayServer.Steps.{created-IsUp}
use airplay.Daemon.State.{Daemon, on_server}
use airplay.Daemon.Program.{close_log, cleanups, destroy_server, serve_until_signal}
use airplay.Daemon.Parts.{IsQuiet, Cleaned, cleanups-Cleaned}
use airplay.Daemon.Shutdown.{Ends, AllFresh, with_server, loop-IsUp}

abbrev IsFree : Client → Type 0
IsFree client = client.connected ≡ false

close_clients-IsFree : (clients : List Client) (k : Kernel) → All IsFree (close_clients clients k).0
unfolding close_clients
close_clients-IsFree [] k = tt
close_clients-IsFree (client ∷ clients) k =
    (refl, close_clients-IsFree clients (if client.connected then closed client.fd k else k))

close_clients-free :
    (clients : List Client) (k : Kernel) → All IsFree clients → (close_clients clients k).1 ≡ k
unfolding close_clients
close_clients-free [] k h = refl
close_clients-free (client ∷ clients) k h = ground (arith, h.0, close_clients-free clients k h.1)

stop-IsFree : (v : Server) → Returns (λ r. All IsFree r.1.clients) (stop v)
unfolding stop
stop-IsFree v = ground (arith, close_clients-IsFree v.clients v.kernel)

-- A server that is stopped is destroyed without a change of the descriptors.
destroy_stopped :
    (v : Server)
    → All IsFree v.clients
    → v.socket_fd ≡ negsuc 0
    → Returns (λ r. r.1.kernel ≡ v.kernel) (destroy v)
unfolding destroy stop
destroy_stopped v h e = ground (arith, e, close_clients-free v.clients v.kernel h)

module _ {F : Type 0} where
  -- What the program leaves.
  abbrev pub LeavesClean : (ℕ → ℕ) → ℕ → ℤ × Daemon F → Type 0
  LeavesClean others bad r =
      (r.0 ≡ success)
      × (r.1.kernel.bad_closes ≡ bad)
      × (r.1.volume.audio.audio_buffer ≡ none)
      × (r.1.volume.audio.open_pcms ≡ [])
      × (r.1.log ≡ none)
      × ((n : ℕ) → count n r.1.kernel.open_fds ≡ others n)

  -- The end of main.
  abbrev leave : M (Daemon F) ℤ
  unfolding destroy_server
  leave = do _ ← on_server stop; destroy_server; cleanups; close_log; ret success

  -- The shutdown of a server that is up.
  shut_down :
      (others : ℕ → ℕ) (bad : ℕ) (w : Server) (s : Daemon F)
      → IsUp others bad w
      → IsQuiet s
      → All IsClosed s.multiroom.slots
      → Returns (LeavesClean others bad) (leave (with_server w s))
  unfolding destroy_server
  shut_down others bad w s up q c =
      let ((a, x), e, (st, fr)) = Returns-eq _ (stop w) (
        Returns-both (Stopped others bad) (λ r. All IsFree r.1.clients) (stop w)
          (stop-Stopped others bad w up) (stop-IsFree w)) in
      let ((b, y), d, k) =
        Returns-eq (λ r. r.1.kernel ≡ x.kernel) (destroy x) (destroy_stopped x fr st.2) in
      let ((u, t), g, cl) =
        Returns-eq (λ r. Cleaned (record s { server = none; kernel = y.kernel }) r.1)
          (cleanups (record s { server = none; kernel = y.kernel }))
          (cleanups-Cleaned (record s { server = none; kernel = y.kernel })
            (record {
              volume_unlocked = q.volume_unlocked;
              audio_sound = q.audio_sound;
              audio_idle = q.audio_idle;
              playback_unlocked = q.playback_unlocked;
              multiroom_unlocked = q.multiroom_unlocked;
              multiroom_idle = q.multiroom_idle;
            })
            c) in
      let run : leave (with_server w s) ≡ returns (success, record t { log = none }) =
        ground (arith, e, d, g) in
      rw run (
        refl,
        ground (arith, cl.0, k, st.5),
        cl.1,
        cl.2,
        refl,
        λ n. ground (arith, cl.0, k, st.6 n),
      )

  -- From the creation of the server on, with quiet modules, memory for the server, a start that succeeds, and
  -- a schedule of passes in which accept gives no open descriptor and a signal comes: the program leaves its
  -- loop and exits with 0. As many descriptors of each number are open as before, none that was not open was
  -- closed, no ALSA stream is open, and the audio buffer is freed.
  pub serve_until_signal_lem :
      (answers : StartAnswers) (schedule : List (PassAnswers × Option ℕ)) (v : Server)
      (s : Daemon F)
      → IsQuiet s
      → All IsClosed s.multiroom.slots
      → s.running ≡ true
      → start answers (create s.kernel) ≡ returns (success, v)
      → Ends schedule
      → AllFresh schedule v
      → Returns
          (LeavesClean (λ n. count n s.kernel.open_fds) s.kernel.bad_closes)
          (serve_until_signal true answers schedule s)
  unfolding serve_until_signal
  serve_until_signal_lem answers schedule v s q c r e end fresh =
      let others : ℕ → ℕ = λ n. count n s.kernel.open_fds in
      let (w, l, up) =
        loop-IsUp schedule others s.kernel.bad_closes v s end fresh
          (created-IsUp answers s.kernel v e) r in
      let still : IsQuiet (record s { running = false }) = record {
        volume_unlocked = q.volume_unlocked;
        audio_sound = q.audio_sound;
        audio_idle = q.audio_idle;
        playback_unlocked = q.playback_unlocked;
        multiroom_unlocked = q.multiroom_unlocked;
        multiroom_idle = q.multiroom_idle;
      } in
      let (x, d, clean) =
        Returns-eq (LeavesClean others s.kernel.bad_closes)
          (leave (with_server w (record s { running = false })))
          (shut_down others s.kernel.bad_closes w (record s { running = false }) up still c) in
      let run : serve_until_signal true answers schedule s ≡ returns x = ground (arith, e, l, d) in
      rw run clean
