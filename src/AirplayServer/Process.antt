-- ===== src/AirplayServer/Process.antt =====
-- airplay_server_process: one pass of the event loop.
use airplay.Base.{
  ℕ, Bool, true, false, not, ◌&&◌, ◌||◌, Option, List, [], ◌∷◌, replicate, ℤ, pos, eqb_ℤ,
  is_negative, success, failure, faults, M, ret, ◌>>=◌, ◌>>◌, get, modify, branch, when,
  if◌then◌else◌,
}
use airplay.Base.Kernel.{granted, closed}
use airplay.AirplayServer.State.{Server, Client, Peer}
use airplay.AirplayServer.Requests.{handle_client_request}

-- What the kernel answers in a pass: the result of select and whether errno is EINTR, the descriptors
-- that are ready, the answer of accept, and what recv brings from a descriptor.
pub record PassAnswers : Type 0 where
  pub select : ℤ
  pub interrupted : Bool
  pub ready : ℤ → Bool
  pub accept : ℤ
  pub peer : Peer
  pub recv : ℤ → Option (List ℕ)

-- FD_SET of the connected clients.
abbrev is_set : List Client → ℤ → Bool
is_set [] fd = false
is_set (client ∷ clients) fd = client.connected && eqb_ℤ client.fd fd || is_set clients fd

-- The first free slot, if there is one, takes the connection.
unfoldable pub seat : ℤ → Peer → List Client → List Client
seat fd addr [] = []
seat fd addr (client ∷ clients) =
    if client.connected
    then client ∷ seat fd addr clients
    else record { fd = fd; addr = addr; connected = true; session_id = replicate 64 0 } ∷ clients

-- The second loop asks every slot for the number, a free one too.
unfoldable pub found_slot : ℤ → List Client → Bool
found_slot fd [] = false
found_slot fd (client ∷ clients) = if eqb_ℤ client.fd fd then true else found_slot fd clients

unfoldable pub accept_client : ℤ → Peer → M Server (Unit {0})
accept_client fd addr = do
  modify λ s. record s { kernel = granted fd s.kernel }
  when (if is_negative fd then false else true) do
    modify λ s. record s { clients = seat fd addr s.clients }
    s ← get
    when (not (found_slot fd s.clients)) (modify λ t. record t { kernel = closed fd t.kernel })

-- A round of the last loop, on one slot. `ready` says which descriptors select left in the set.
unfoldable pub serve_client : (ℤ → Bool) → (ℤ → Option (List ℕ)) → Client → M Server Client
serve_client ready recv client =
    branch (client.connected && ready client.fd)
      (do
        status ← handle_client_request client.fd (recv client.fd)
        branch (is_negative status)
            (do
              modify λ s. record s { kernel = closed client.fd s.kernel }
              ret (record client { connected = false }))
            (ret client))
      (ret client)

-- The rounds of the loop. None reads or changes the slot of another.
unfoldable pub serve : (ℤ → Bool) → (ℤ → Option (List ℕ)) → List Client → M Server (List Client)
serve ready recv [] = ret []
serve ready recv (client ∷ clients) = do
  client' ← serve_client ready recv client
  clients' ← serve ready recv clients
  ret (client' ∷ clients')

-- On a server that is not a null pointer. FD_SET of a negative number is undefined; the descriptors
-- are taken to be below FD_SETSIZE.
unfoldable pub process : PassAnswers → M Server ℤ
process answers = do
  s ← get
  branch (not s.running) (ret failure) (
      branch (is_negative s.socket_fd) (λ t. faults)
        (branch (is_negative answers.select)
          (branch answers.interrupted (ret success) (ret failure))
          (branch (eqb_ℤ answers.select (pos 0)) (ret success) do
            when (answers.ready s.socket_fd) (accept_client answers.accept answers.peer)
            t ← get
            clients ←
                serve (λ fd. (eqb_ℤ s.socket_fd fd || is_set s.clients fd) && answers.ready fd)
                  answers.recv t.clients
            modify λ u. record u { clients = clients }
            ret success)))
