-- ===== src/AirplayServer/Session.antt =====
-- A server from its start to its end, in the account of the descriptors.
use airplay.Base.{
  ℕ, ◌+◌, ◌≡◌, refl, sym, subst, ◌∙◌, Bool-cases, true, false, none, List, [], ◌∷◌, All,
  is_negative, ℤ, pos, negsuc, success, failure, Returns, Returns-mono, arith, ◌⊎◌, inl, inr,
}
use airplay.Base.Kernel.{Kernel, granted, closed, closed-granted}
use airplay.AirplayServer.State.{Server, Client}
use airplay.AirplayServer.Lifecycle.{StartAnswers, start, stop, close_clients}
use airplay.Base.Descriptors.{count, holds, count-granted, closed-Balanced}
use airplay.AirplayServer.Accounts.{held, IsSeat, Balanced}
use airplay.AirplayServer.Pass.{IsUp}

close_clients-Balanced :
    (clients : List Client) (others : ℕ → ℕ) (k : Kernel)
    → All IsSeat clients
    → Balanced others clients k
    → ((n : ℕ) → count n (close_clients clients k).1.open_fds ≡ others n)
      × ((close_clients clients k).1.bad_closes ≡ k.bad_closes)
unfolding close_clients
close_clients-Balanced [] others k v b = ((λ n. omega (arith, b n)), refl)
close_clients-Balanced (client ∷ clients) others k v b = elim (Bool-cases client.connected) [
  | inl taken ↦
      let (closes, same) =
        closed-Balanced client.fd (λ n. held n clients + others n) k (ground (arith, taken, v.0))
          (λ n. ground (arith, taken, b n)) in
      let (all, same') = close_clients-Balanced clients others (closed client.fd k) v.1 closes in
      rw taken (all, same' ∙ same)
  | inr free ↦
      rw free (close_clients-Balanced clients others k v.1 (λ n. ground (arith, free, b n)))
]

-- What a stop leaves.
abbrev pub Stopped : (ℕ → ℕ) → ℕ → ℤ × Server → Type 0
Stopped others bad r =
    (r.0 ≡ success)
    × (r.1.running ≡ false)
    × (r.1.socket_fd ≡ negsuc 0)
    × (r.1.avahi_client ≡ none)
    × (r.1.entry_group ≡ none)
    × (r.1.kernel.bad_closes ≡ bad)
    × ((n : ℕ) → count n r.1.kernel.open_fds ≡ others n)

-- A stop of a server that is up returns 0, and the server is not running and has neither its socket nor its
-- two Avahi objects. Every descriptor that it accounted for is closed once, and no other.
pub stop-Stopped :
    (others : ℕ → ℕ) (bad : ℕ) (s : Server)
    → IsUp others bad s
    → Returns (Stopped others bad) (stop s)
unfolding stop
stop-Stopped others bad s h =
    let rest : ℕ → ℕ = λ n. holds n s.socket_fd + others n in
    let (all, same) =
      close_clients-Balanced s.clients rest s.kernel h.accounts.seats h.accounts.balanced in
    let (last, same') =
      closed-Balanced s.socket_fd others (close_clients s.clients s.kernel).1 h.has_socket all in
    simp h.has_socket (refl, refl, refl, refl, refl, same' ∙ (same ∙ h.accounts.no_bad), last)

-- No slot is in use, as after create and stop.
abbrev pub IsEmpty : Server → Type 0
IsEmpty s = All (λ client. client.connected ≡ false) s.clients

held-empty :
    (n : ℕ) (clients : List Client)
    → All (λ client. client.connected ≡ false) clients
    → held n clients ≡ 0
held-empty n [] h = refl
held-empty n (client ∷ clients) h = ground (arith, h.0, held-empty n clients h.1)

seats-empty :
    (clients : List Client) → All (λ client. client.connected ≡ false) clients → All IsSeat clients
seats-empty [] h = tt
seats-empty (client ∷ clients) h = (ground (arith, h.0), seats-empty clients h.1)

-- A start that succeeds, and one that fails and leaves the number of its socket behind.
abbrev pub Outcomes : StartAnswers → Server → ℤ × Server → Type 0
Outcomes answers s r =
    ((r.0 ≡ success)
      × (is_negative answers.socket ≡ false)
      × (r.1 ≡ record s {
        socket_fd = answers.socket;
        kernel = granted answers.socket s.kernel;
        avahi_client = answers.avahi;
        running = true;
      }))
    ⊎ ((r.0 ≡ failure)
        × (r.1 ≡ record s { socket_fd = answers.socket; avahi_client = r.1.avahi_client }))

start_at :
    (m : ℕ) (answers : StartAnswers) (s : Server)
    → Returns
        (Outcomes (record answers { socket = pos m }) s)
        (start (record answers { socket = pos m }) s)
unfolding start
start_at m answers s = ground (arith, closed-granted m s.kernel)

start_without :
    (m : ℕ) (answers : StartAnswers) (s : Server)
    → Returns
        (Outcomes (record answers { socket = negsuc m }) s)
        (start (record answers { socket = negsuc m }) s)
unfolding start
start_without m answers s = inr (refl, refl)

pub start-Outcomes :
    (fd : ℤ) (answers : StartAnswers) (s : Server)
    → Returns
        (Outcomes (record answers { socket = fd }) s)
        (start (record answers { socket = fd }) s)
start-Outcomes (pos m) answers s = start_at m answers s
start-Outcomes (negsuc m) answers s = start_without m answers s

granted-bad_closes : (fd : ℤ) (k : Kernel) → (granted fd k).bad_closes ≡ k.bad_closes
granted-bad_closes (pos m) k = refl
granted-bad_closes (negsuc m) k = refl

-- A start of a server without connections that does not run: 0, and the server is up and accounts for its
-- socket beside the descriptors there were; or -1, and the open descriptors are what they were. Whatever
-- socket, bind, listen and Avahi answer.
pub start-IsUp :
    (answers : StartAnswers) (s : Server)
    → IsEmpty s
    → s.running ≡ false
    → Returns
        (λ r.
          ((r.0 ≡ success) × IsUp (λ n. count n s.kernel.open_fds) s.kernel.bad_closes r.1)
          ⊎ ((r.0 ≡ failure) × (r.1.kernel ≡ s.kernel) × (r.1.running ≡ false)))
        (start answers s)
start-IsUp answers s e r =
    Returns-mono (Outcomes answers s) _ (start answers s) (start-Outcomes answers.socket answers s)
      λ o k. elim k [
        | inl (ok, v, t) ↦ inl (
          ok,
          record {
            accounts = record {
              balanced = λ n.
                  ground
                    (arith, t, count-granted answers.socket n s.kernel, held-empty n s.clients e);
              no_bad = ground (arith, t, granted-bad_closes answers.socket s.kernel);
              seats = subst (λ u. All IsSeat u.clients) (sym t) (seats-empty s.clients e);
            };
            is_running = rw t refl;
            has_socket = rw t v;
          },
        )
        | inr (failed, t) ↦ inr (failed, rw t refl, rw t r)
      ]
