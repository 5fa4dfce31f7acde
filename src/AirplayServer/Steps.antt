-- ===== src/AirplayServer/Steps.antt =====
-- What happens to a server between its start and its end, as steps.
use airplay.Base.{
  ℕ, ◌≡◌, refl, sym, subst, ◌∙◌, Option, none, some, All, ℤ, pos, success, Outcome, returns,
  Returns, Returns->>=, arith, inl, inr,
}
use airplay.Base.Kernel.{Kernel, closed}
use airplay.AirplayServer.State.{Server, AirplayConfig, create}
use airplay.AirplayServer.Lifecycle.{
  StartAnswers, start, stop, destroy, close_clients, AvahiClientState, avahi_client_callback,
  s_running, client_failure, other_state,
}
use airplay.AirplayServer.Process.{PassAnswers, process}
use airplay.AirplayServer.Settings.{
  set_config, set_audio_callback, set_volume_callback, set_playback_callbacks,
}
use airplay.Base.Descriptors.{count}
use airplay.AirplayServer.Accept.{IsFresh}
use airplay.AirplayServer.Pass.{IsUp, process-IsUp}
use airplay.AirplayServer.Session.{start-IsUp, stop-Stopped}

infix 40 ◌⟶◌ ◌⟶*◌
-- A pass of the event loop, the callback of Avahi's thread, and the setters.
pub data ◌⟶◌ : Server → Server → Type 0 where
  pass :
      (answers : PassAnswers) (s : Server) (r : ℤ × Server)
      → IsFresh answers.accept s.kernel
      → process answers s ≡ returns r
      → s ⟶ r.1
  announce :
      (state : AvahiClientState) (group : Option ℕ) (s : Server) (r : Unit {0} × Server)
      → avahi_client_callback state group s ≡ returns r
      → s ⟶ r.1
  configure :
      (config : Option AirplayConfig) (s : Server) (r : ℤ × Server)
      → set_config config s ≡ returns r
      → s ⟶ r.1
  register_audio :
      (f : Option ℕ) (s : Server) (r : ℤ × Server) → set_audio_callback f s ≡ returns r → s ⟶ r.1
  register_volume :
      (f : Option ℕ) (s : Server) (r : ℤ × Server) → set_volume_callback f s ≡ returns r → s ⟶ r.1
  register_playback :
      (f g h i j : Option ℕ) (s : Server) (r : ℤ × Server)
      → set_playback_callbacks f g h i j s ≡ returns r
      → s ⟶ r.1

pub data ◌⟶*◌ : Server → Server → Type 0 where
  stay : (s : Server) → s ⟶* s
  step : (s t u : Server) → s ⟶ t → t ⟶* u → s ⟶* u

-- A change of the other fields.
IsUp-frame :
    (others : ℕ → ℕ) (bad : ℕ) (s t : Server)
    → IsUp others bad s
    → t.kernel ≡ s.kernel
    → t.clients ≡ s.clients
    → t.socket_fd ≡ s.socket_fd
    → t.running ≡ s.running
    → IsUp others bad t
IsUp-frame others bad s t h k c f r = record {
  accounts = record {
    balanced = λ n. ground (arith, h.accounts.balanced n, k, c, f);
    no_bad = ground (arith, k, h.accounts.no_bad);
    seats = subst (All _) (sym c) h.accounts.seats;
  };
  is_running = r ∙ h.is_running;
  has_socket = ground (arith, f, h.has_socket);
}

-- What a call that returns came to.
Returns-at :
    {A : Type 0} (P : A → Type 0) (o : Outcome A) (a : A) → o ≡ returns a → Returns P o → P a
Returns-at P o a e h = subst (Returns P) e h

abbrev Kept : Server → Server → Type 0
Kept s t =
    (t.kernel ≡ s.kernel)
    × (t.clients ≡ s.clients)
    × (t.socket_fd ≡ s.socket_fd)
    × (t.running ≡ s.running)

avahi-Kept :
    (state : AvahiClientState) (group : Option ℕ) (s : Server)
    → Returns (λ r. Kept s r.1) (avahi_client_callback state group s)
unfolding avahi_client_callback
avahi-Kept s_running group s = ground arith
avahi-Kept client_failure group s = (refl, refl, refl, refl)
avahi-Kept other_state group s = (refl, refl, refl, refl)

config-Kept :
    (config : Option AirplayConfig) (s : Server) → Returns (λ r. Kept s r.1) (set_config config s)
config-Kept none s = (refl, refl, refl, refl)
config-Kept (some c) s = (refl, refl, refl, refl)

Kept-IsUp :
    (others : ℕ → ℕ) (bad : ℕ) (s t : Server) → IsUp others bad s → Kept s t → IsUp others bad t
Kept-IsUp others bad s t h k = IsUp-frame others bad s t h k.0 k.1 k.2 k.3

step-IsUp :
    (others : ℕ → ℕ) (bad : ℕ) (s t : Server) → IsUp others bad s → s ⟶ t → IsUp others bad t
step-IsUp others bad s t h (pass answers s' r f e) =
    Returns-at (λ r. IsUp others bad r.1) (process answers s') r e
      (process-IsUp answers others bad s' f h)
step-IsUp others bad s t h (announce state group s' r e) =
    Kept-IsUp others bad s' r.1 h (Returns-at (λ r. Kept s' r.1) _ r e (avahi-Kept state group s'))
step-IsUp others bad s t h (configure config s' r e) =
    Kept-IsUp others bad s' r.1 h (Returns-at (λ r. Kept s' r.1) _ r e (config-Kept config s'))
step-IsUp others bad s t h (register_audio f s' r e) =
    Kept-IsUp others bad s' r.1 h
      (Returns-at (λ r. Kept s' r.1) (set_audio_callback f s') r e (refl, refl, refl, refl))
step-IsUp others bad s t h (register_volume f s' r e) =
    Kept-IsUp others bad s' r.1 h
      (Returns-at (λ r. Kept s' r.1) (set_volume_callback f s') r e (refl, refl, refl, refl))
step-IsUp others bad s t h (register_playback f g x i j s' r e) = Kept-IsUp others bad s' r.1 h (
    Returns-at (λ r. Kept s' r.1) (set_playback_callbacks f g x i j s') r e
      (refl, refl, refl, refl))

steps-IsUp :
    (others : ℕ → ℕ) (bad : ℕ) (s t : Server) → IsUp others bad s → s ⟶* t → IsUp others bad t
steps-IsUp others bad s t h (stay s') = h
steps-IsUp others bad s t h (step s' u t' x xs) =
    steps-IsUp others bad u t (step-IsUp others bad s' u h x) xs

-- A created server that is started with success is up.
pub created-IsUp :
    (answers : StartAnswers) (k : Kernel) (s : Server)
    → start answers (create k) ≡ returns (success, s)
    → IsUp (λ n. count n k.open_fds) k.bad_closes s
created-IsUp answers k s e =
    elim (Returns-at _ (start answers (create k)) (success, s) e
      (start-IsUp answers (create k) (refl, (refl, (refl, (refl, tt)))) refl)) [
        | inl (ok, h) ↦ h
        | inr (failed, same, idle) ↦ absurd (ground (arith, failed))
      ]

-- A server that is created, started with success and destroyed after any sequence of passes, Avahi
-- callbacks and setters: as many descriptors of each number are open as before, and none that was not open
-- was closed.
pub destroy-start :
    (answers : StartAnswers) (k : Kernel) (s t : Server)
    → start answers (create k) ≡ returns (success, s)
    → s ⟶* t
    → Returns
        (λ r.
          (r.1.kernel.bad_closes ≡ k.bad_closes)
          × ((n : ℕ) → count n r.1.kernel.open_fds ≡ count n k.open_fds))
        (destroy t)
unfolding destroy
destroy-start answers k s t e xs =
    Returns->>= _ _ stop _ t
      (stop-Stopped _ _ t (steps-IsUp _ _ s t (created-IsUp answers k s e) xs)) λ a u x. (x.5, x.6)

-- A server that is created and destroyed closes descriptor 0, which it did not open: calloc leaves 0 in
-- `socket_fd`.
pub destroy-create :
    (k : Kernel) → Returns (λ r. r.1.kernel ≡ closed (pos 0) k) (destroy (create k))
unfolding destroy stop close_clients
destroy-create k = refl
