-- ===== src/AirplayServer/Accounts.antt =====
-- The descriptors that a server holds, counted, and that every function accounts for them.
use airplay.Base.{
  ℕ, ◌+◌, ◌≡◌, refl, ◌∙◌, Bool, true, false, ◌&&◌, Option, none, some, List, [], ◌∷◌, All,
  is_negative, ℤ, if◌then◌else◌, Returns, Returns->>=, Returns-mono, Returns-eq, arith, ◌⊎◌, inl,
  inr,
}
use airplay.Base.Kernel.{Kernel, closed}
use airplay.Base.Descriptors.{count, holds, closed-Balanced}
use airplay.AirplayServer.State.{Server, Client}
use airplay.AirplayServer.Requests.{handle_client_request, handle_http_request, handle_rtsp_request}
use airplay.AirplayServer.Process.{serve_client, serve}

abbrev pub held_by : ℕ → Client → ℕ
held_by n client = if client.connected then holds n client.fd else 0

-- How many slots hold a descriptor.
abbrev pub held : ℕ → List Client → ℕ
held n [] = 0
held n (client ∷ clients) = held_by n client + held n clients

-- A slot in use has a descriptor.
abbrev pub IsSeat : Client → Type 0
IsSeat client = (client.connected && is_negative client.fd) ≡ false

-- The open descriptors are those that the slots hold, and `others`.
abbrev pub Balanced : (ℕ → ℕ) → List Client → Kernel → Type 0
Balanced others clients k = (n : ℕ) → count n k.open_fds ≡ held n clients + others n

-- The same for a server, that holds its own socket too, with `bad` bad calls of close so far.
pub record Accounts (others : ℕ → ℕ) (bad : ℕ) (s : Server) : Type 0 where
  pub balanced :
      (n : ℕ) → count n s.kernel.open_fds ≡ held n s.clients + (holds n s.socket_fd + others n)
  pub no_bad : s.kernel.bad_closes ≡ bad
  pub seats : All IsSeat s.clients

-- A request is answered without a change of the server but in what is sent.
pub handle_client_request_frame :
    (fd : ℤ) (received : Option (List ℕ)) (s : Server)
    → Returns (λ r. r.1 ≡ record s { sent = r.1.sent }) (handle_client_request fd received s)
unfolding handle_client_request handle_http_request handle_rtsp_request
handle_client_request_frame fd none s = refl
handle_client_request_frame fd (some []) s = refl
handle_client_request_frame fd (some (x ∷ xs)) s = ground arith

-- What a round of the last loop, or all of them, leave alone.
abbrev pub Served : Server → Server → Type 0
Served s t = t ≡ record s { sent = t.sent; kernel = t.kernel }

-- A round leaves a slot as it is, or closes its connection.
abbrev Round : Client → Server → Client × Server → Type 0
Round client s r =
    Served s r.1
    × (((r.0 ≡ client) × (r.1.kernel ≡ s.kernel))
        ⊎ ((client.connected ≡ true)
            × (r.0 ≡ record client { connected = false })
            × (r.1.kernel ≡ closed client.fd s.kernel)))

serve_client-Round :
    (ready : ℤ → Bool) (recv : ℤ → Option (List ℕ)) (client : Client) (s : Server)
    → Returns (Round client s) (serve_client ready recv client s)
unfolding serve_client
serve_client-Round ready recv client s =
    let ((status, t), e, frame) =
      Returns-eq (λ r. r.1 ≡ record s { sent = r.1.sent })
        (handle_client_request client.fd (recv client.fd) s)
        (handle_client_request_frame client.fd (recv client.fd) s) in
    ground (arith, e, frame)

-- The same in the account.
abbrev pub Accounted : (ℕ → ℕ) → Client → Server → Client × Server → Type 0
Accounted others client s r =
    ((n : ℕ) → count n r.1.kernel.open_fds ≡ held_by n r.0 + others n)
    × (r.1.kernel.bad_closes ≡ s.kernel.bad_closes)
    × IsSeat r.0
    × Served s r.1

Round-Accounted :
    (client : Client) (others : ℕ → ℕ) (s : Server) (r : Client × Server)
    → IsSeat client
    → ((n : ℕ) → count n s.kernel.open_fds ≡ held_by n client + others n)
    → Round client s r
    → Accounted others client s r
Round-Accounted client others s r v b (same, inl (e, k)) =
    (λ n. ground (arith, e, k, b n), rw k refl, rw e v, same)
Round-Accounted client others s r v b (same, inr (c, e, k)) =
    let (closes, no_bad) =
      closed-Balanced client.fd others s.kernel (ground (arith, c, v))
        (λ n. ground (arith, c, b n)) in
    (λ n. ground (arith, e, k, closes n), rw (k) no_bad, ground (arith, e), same)

-- All the rounds.
abbrev pub AllAccounted : (ℕ → ℕ) → Server → List Client × Server → Type 0
AllAccounted others s r =
    Balanced others r.0 r.1.kernel
    × (r.1.kernel.bad_closes ≡ s.kernel.bad_closes)
    × All IsSeat r.0
    × Served s r.1

pub serve-AllAccounted :
    (ready : ℤ → Bool) (recv : ℤ → Option (List ℕ)) (clients : List Client) (others : ℕ → ℕ)
    (s : Server)
    → All IsSeat clients
    → Balanced others clients s.kernel
    → Returns (AllAccounted others s) (serve ready recv clients s)
unfolding serve
serve-AllAccounted ready recv [] others s v b = (b, refl, tt, refl)
serve-AllAccounted ready recv (client ∷ clients) others s v b =
    Returns->>= (Accounted (λ n. held n clients + others n) client s) (AllAccounted others s)
      (serve_client ready recv client) _ s
      (Returns-mono (Round client s) _ (serve_client ready recv client s)
        (serve_client-Round ready recv client s)
        λ r.
          Round-Accounted client (λ n. held n clients + others n) s r v.0 (λ n. omega (arith, b n)))
      λ client' t h.
        Returns->>= (AllAccounted (λ n. held_by n client' + others n) t) (AllAccounted others s)
          (serve ready recv clients) _ t
          (serve-AllAccounted ready recv clients (λ n. held_by n client' + others n) t v.1
            (λ n. omega (arith, h.0 n)))
          λ clients' u k. (λ n. omega (arith, k.0 n), k.1 ∙ h.1, (h.2, k.2), cc)
