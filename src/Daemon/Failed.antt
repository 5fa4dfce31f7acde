-- ===== src/Daemon/Failed.antt =====
-- main where the server does not start.
use airplay.Base.{
  is_negative, if◌then◌else◌, ◌+◌, ℕ, ◌≡◌, refl, arith, true, false, Option, none, List, [], ◌∷◌,
  All, ℤ, pos, negsuc, failure, returns, Returns, Returns-eq, sym, subst,
}
use airplay.Base.Kernel.{Kernel, closed, member}
use airplay.Multiroom.Lifecycle.{IsClosed}
use airplay.AirplayServer.State.{Server, create}
use airplay.AirplayServer.Lifecycle.{StartAnswers, start, stop, destroy, close_clients}
use airplay.AirplayServer.Process.{PassAnswers}
use airplay.Base.Descriptors.{count}
use airplay.AirplayServer.Accept.{IsFresh}
use airplay.Daemon.State.{Daemon}
use airplay.Daemon.Program.{cleanups, destroy_server, serve_until_signal}
use airplay.Daemon.Parts.{IsQuiet, Cleaned, cleanups-Cleaned}

member-count : (m : ℕ) (fds : List ℕ) → count m fds ≡ 0 → member m fds ≡ false
member-count m [] h = refl
member-count m (x ∷ fds) h = ground (arith, member-count m fds)

-- The closes of a descriptor that is closed already.
abbrev pub closed_again : ℤ → ℕ
closed_again fd = if is_negative fd then 0 else 1

-- The open descriptors are the same, and `n` more closes hit a number that was not open.
abbrev pub Keeps : ℕ → Kernel → Kernel → Type 0
Keeps n k l = (l.open_fds ≡ k.open_fds) × (l.bad_closes ≡ k.bad_closes + n)

-- A close of a number that is not open leaves the open descriptors.
closed_fresh : (m : ℕ) (k : Kernel) → count m k.open_fds ≡ 0 → Keeps 1 k (closed (pos m) k)
closed_fresh m k f = ground (arith, member-count m k.open_fds f)

-- The server that a failed start leaves is destroyed.
destroy_failed :
    (fd : ℤ) (avahi : Option ℕ) (k : Kernel)
    → IsFresh fd k
    → Returns
        (λ r. Keeps (closed_again fd) k r.1.kernel)
        (destroy (record (create k) { socket_fd = fd; avahi_client = avahi }))
unfolding destroy stop close_clients
destroy_failed (pos m) avahi k f = ground (arith, closed_fresh m k (f m refl))
destroy_failed (negsuc m) avahi k f = ground arith

module _ {F : Type 0} where
  -- What the program leaves behind a failed start.
  abbrev pub Abandons : ℕ → Daemon F → ℤ × Daemon F → Type 0
  Abandons n s r =
      (r.0 ≡ pos 1)
      × Keeps n s.kernel r.1.kernel
      × (r.1.volume.audio.audio_buffer ≡ none)
      × (r.1.volume.audio.open_pcms ≡ [])

  -- From the creation of the server on, with quiet modules, where there is no memory for the server: the
  -- modules are cleaned up and the program exits with 1.
  pub serve_without_memory :
      (answers : StartAnswers) (schedule : List (PassAnswers × Option ℕ)) (s : Daemon F)
      → IsQuiet s
      → All IsClosed s.multiroom.slots
      → Returns (Abandons 0 s) (serve_until_signal false answers schedule s)
  unfolding serve_until_signal
  serve_without_memory answers schedule s q c =
      let ((u, t), e, cl) = Returns-eq (λ r. Cleaned s r.1) (cleanups s) (cleanups-Cleaned s q c) in
      ground (arith, e, cl)

  IsQuiet-without :
      (y : Kernel) (s : Daemon F) → IsQuiet s → IsQuiet (record s { server = none; kernel = y })
  IsQuiet-without y s q = record {
    volume_unlocked = q.volume_unlocked;
    audio_sound = q.audio_sound;
    audio_idle = q.audio_idle;
    playback_unlocked = q.playback_unlocked;
    multiroom_unlocked = q.multiroom_unlocked;
    multiroom_idle = q.multiroom_idle;
  }

  -- The same where there is memory and the start fails, on a socket that was no open descriptor.
  pub serve_after_failure :
      (answers : StartAnswers) (schedule : List (PassAnswers × Option ℕ)) (v : Server)
      (s : Daemon F)
      → IsQuiet s
      → All IsClosed s.multiroom.slots
      → IsFresh answers.socket s.kernel
      → start answers (create s.kernel) ≡ returns (failure, v)
      → v ≡ record (create s.kernel) { socket_fd = answers.socket; avahi_client = v.avahi_client }
      → Returns
          (Abandons (closed_again answers.socket) s)
          (serve_until_signal true answers schedule s)
  unfolding serve_until_signal destroy_server
  serve_after_failure answers schedule v s q c f e shape =
      let Gone : ℤ → Server → Type 0 =
        λ fd u. Returns (λ r. Keeps (closed_again fd) s.kernel r.1.kernel) (destroy u) in
      let gone : Gone answers.socket v =
        subst (Gone answers.socket) (sym shape)
          (destroy_failed answers.socket v.avahi_client s.kernel f) in
      let ((b, y), d, k) =
        Returns-eq (λ r. Keeps (closed_again answers.socket) s.kernel r.1.kernel) (destroy v)
          gone in
      let after : Daemon F = record s { server = none; kernel = y.kernel } in
      let ((u, t), g, cl) =
        Returns-eq (λ r. Cleaned after r.1) (cleanups after)
          (cleanups-Cleaned after (IsQuiet-without y.kernel s q) c) in
      ground (arith, e, d, k, g, cl)
