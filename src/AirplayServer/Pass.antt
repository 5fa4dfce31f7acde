-- ===== src/AirplayServer/Pass.antt =====
-- A pass of the event loop, in the account of the descriptors.
use airplay.Base.{
  ℕ, ◌+◌, ◌≡◌, refl, ◌∙◌, Bool, Bool-cases, true, false, Option, List, eqb_ℤ, is_negative, ℤ, pos,
  success, ret, ◌>>=◌, ◌>>◌, modify, when, Returns, Returns->>=, Returns-mono, arith, inl, inr,
}
use airplay.AirplayServer.State.{Server, Peer}
use airplay.AirplayServer.Process.{PassAnswers, accept_client, serve, process}
use airplay.Base.Descriptors.{holds}
use airplay.AirplayServer.Accounts.{Accounts, serve-AllAccounted, AllAccounted}
use airplay.AirplayServer.Accept.{IsFresh, Accepted, accept_client-Accounts}

-- A server that a start has brought up, and that accounts for its descriptors.
pub record IsUp (others : ℕ → ℕ) (bad : ℕ) (s : Server) : Type 0 where
  pub accounts : Accounts others bad s
  pub is_running : s.running ≡ true
  pub has_socket : is_negative s.socket_fd ≡ false

-- The rest of a pass, from a state with the new connection.
serve_part :
    (ready : ℤ → Bool) (recv : ℤ → Option (List ℕ)) (others : ℕ → ℕ) (bad : ℕ) (t : Server)
    → IsUp others bad t
    → Returns
        (λ r. IsUp others bad r.1 × (r.0 ≡ success))
        ((do
          clients ← serve ready recv t.clients
          modify λ u. record u { clients = clients }
          ret success)
          t)
serve_part ready recv others bad t h =
    let rest : ℕ → ℕ = λ n. holds n t.socket_fd + others n in
    Returns->>= (AllAccounted rest t) (λ r. IsUp others bad r.1 × (r.0 ≡ success))
      (serve ready recv t.clients) _ t
      (serve-AllAccounted ready recv t.clients rest t h.accounts.seats h.accounts.balanced)
      λ clients u k. (
        record {
          accounts = record {
            balanced = λ n. ground (arith, k.0 n, k.3);
            no_bad = k.1 ∙ h.accounts.no_bad;
            seats = k.2;
          };
          is_running = ground (arith, k.3, h.is_running);
          has_socket = ground (arith, k.3, h.has_socket);
        },
        refl,
      )

-- The new connection of a pass, if there is one.
accept_part :
    (fd : ℤ) (addr : Peer) (asked : Bool) (others : ℕ → ℕ) (bad : ℕ) (s : Server)
    → IsFresh fd s.kernel
    → IsUp others bad s
    → Returns (λ r. IsUp others bad r.1) (when asked (accept_client fd addr) s)
accept_part fd addr false others bad s f h = h
accept_part fd addr true others bad s f h =
    Returns-mono (λ r. Accounts others bad r.1 × Accepted s r.1) (λ r. IsUp others bad r.1)
      (accept_client fd addr s) (accept_client-Accounts fd addr others bad s f h.accounts)
      λ r k. record {
        accounts = k.0;
        is_running = ground (arith, k.1, h.is_running);
        has_socket = ground (arith, k.1, h.has_socket);
      }

-- A pass of the event loop on a server that is up comes back with the server up: it accounts for every
-- open descriptor beside those of the rest of the process, and has closed none that was not open. The
-- answers of the kernel are arbitrary, but that accept gives no descriptor that is open already.
pub process-IsUp :
    (answers : PassAnswers) (others : ℕ → ℕ) (bad : ℕ) (s : Server)
    → IsFresh answers.accept s.kernel
    → IsUp others bad s
    → Returns (λ r. IsUp others bad r.1) (process answers s)
unfolding process
process-IsUp answers others bad s f h = elim (Bool-cases (is_negative answers.select)) [
  | inl failed ↦ elim (Bool-cases answers.interrupted) [
    | inl e ↦ simp (h.is_running, h.has_socket, failed, e) h
    | inr e ↦ simp (h.is_running, h.has_socket, failed, e) h
  ]
  | inr ok ↦ elim (Bool-cases (eqb_ℤ answers.select (pos 0))) [
    | inl idle ↦ simp (h.is_running, h.has_socket, ok, idle) h
    | inr busy ↦
        simp (h.is_running, h.has_socket, ok, busy)
          (Returns->>= (λ r. IsUp others bad r.1) (λ r. IsUp others bad r.1)
            (when (answers.ready s.socket_fd) (accept_client answers.accept answers.peer)) _ s
            (accept_part answers.accept answers.peer (answers.ready s.socket_fd) others bad s f h)
            λ u t k.
              Returns-mono _ (λ r. IsUp others bad r.1) _ (serve_part _ answers.recv others bad t k)
                λ r x. x.0)
  ]
]
