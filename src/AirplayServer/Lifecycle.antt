-- ===== src/AirplayServer/Lifecycle.antt =====
-- airplay_server_start, _stop, _destroy and the callback of the Avahi client.
use airplay.Base.{
  ℕ, Bool, true, false, Option, none, some, List, [], ◌∷◌, ℤ, negsuc, is_negative, success, failure,
  M, ret, ◌>>=◌, ◌>>◌, get, modify, branch, when, if◌then◌else◌,
}
use airplay.Base.Kernel.{Kernel, granted, closed}
use airplay.AirplayServer.State.{Server, Client}

-- What socket, bind, listen and avahi_client_new answer.
pub record StartAnswers : Type 0 where
  pub socket : ℤ
  pub bind : ℤ
  pub listen : ℤ
  pub avahi : Option ℕ

abbrev is_null : Option ℕ → Bool
is_null none = true
is_null (some handle) = false

-- The error paths close the socket and leave its number in `socket_fd`.
abbrev close_socket : M Server ℤ
close_socket = do modify λ s. record s { kernel = closed s.socket_fd s.kernel }; ret failure

-- On a server that is not a null pointer.
unfoldable pub start : StartAnswers → M Server ℤ
start answers = do
  modify λ s. record s { socket_fd = answers.socket; kernel = granted answers.socket s.kernel }
  branch (is_negative answers.socket) (ret failure) (
      branch (is_negative answers.bind) close_socket (
        branch (is_negative answers.listen) close_socket do
          modify λ s. record s { avahi_client = answers.avahi }
          branch (is_null answers.avahi) close_socket
              do modify λ s. record s { running = true }; ret success))

-- The loop that closes the connections.
unfoldable pub close_clients : List Client → Kernel → List Client × Kernel
close_clients [] k = ([], k)
close_clients (client ∷ clients) k =
    let k' = if client.connected then closed client.fd k else k in
    let (clients', k'') = close_clients clients k' in
    (record client { connected = false } ∷ clients', k'')

-- The Avahi objects are given back to their library.
unfoldable pub stop : M Server ℤ
stop = do
  modify λ s. record s { running = false }
  modify λ s. record s {
    clients = (close_clients s.clients s.kernel).0;
    kernel = (close_clients s.clients s.kernel).1;
  }
  s ← get
  when (if is_negative s.socket_fd then false else true)
      (modify λ t. record t { kernel = closed t.socket_fd t.kernel; socket_fd = negsuc 0 })
  modify λ t. record t { entry_group = none; avahi_client = none }
  ret success

-- airplay_server_destroy: what is left of the object is its kernel, since free takes the rest.
unfoldable pub destroy : M Server (Unit {0})
unfolding stop
destroy = do _ ← stop; ret tt

-- AvahiClientState, as far as the callback tells its values apart.
pub data AvahiClientState : Type 0 where
  s_running : AvahiClientState
  client_failure : AvahiClientState
  other_state : AvahiClientState

-- The answer of avahi_entry_group_new is an argument.
unfoldable pub avahi_client_callback : AvahiClientState → Option ℕ → M Server (Unit {0})
avahi_client_callback s_running answer = do
  s ← get
  when (is_null s.entry_group) (modify λ t. record t { entry_group = answer })
avahi_client_callback client_failure answer = ret tt
avahi_client_callback other_state answer = ret tt
