-- ===== src/AirplayServer/Examples.antt =====
-- The server on concrete answers of the kernel.
use airplay.Base.{
  ℕ, All, ◌≡◌, refl, arith, true, false, some, none, [], ◌∷◌, codes, drop, replicate, c_string,
  take, pos, negsuc, success, failure, eqb_ℤ, returns, Returns, ◌⊎◌,
}
use airplay.Base.Kernel.{Kernel}
use airplay.AirplayServer.State.{Server, Client, create}
use airplay.AirplayServer.Lifecycle.{StartAnswers, start, destroy}
use airplay.AirplayServer.Requests.{handle_client_request}
use airplay.AirplayServer.Process.{
  PassAnswers, process, accept_client, seat, found_slot, serve, serve_client,
}
use airplay.Base.Descriptors.{count}
use airplay.Base.Decimal.{decimal, digits}
use airplay.AirplayServer.Settings.{any_connected, first_connected}
use airplay.AirplayServer.Info.{
  inet_ntoa, IsPeer, client_text, get_client_info, Describes, get_client_info_lem,
}
use airplay.AirplayServer.Accept.{IsFresh}
use airplay.AirplayServer.Pass.{IsUp, process-IsUp}
use airplay.AirplayServer.Session.{start-IsUp}
use airplay.AirplayServer.Steps.{pass, step, stay, destroy-start}
use airplay.AirplayServer.Responses.{protocol, replies, messages, handle_client_request_lem}

abbrev kernel : Kernel
kernel = record { open_fds = 0 ∷ 1 ∷ 2 ∷ []; bad_closes = 0 }

abbrev answers : StartAnswers
answers = record { socket = pos 5; bind = pos 0; listen = pos 0; avahi = some 1 }

abbrev refused : StartAnswers
refused = record answers { bind = negsuc 0 }

-- The server that the first start gives.
abbrev server : Server
server = record (create kernel) {
  socket_fd = pos 5;
  avahi_client = some 1;
  running = true;
  kernel = record { open_fds = 5 ∷ kernel.open_fds; bad_closes = 0 };
}

started : start answers (create kernel) ≡ returns (success, server)
unfolding start
started = refl

server-IsUp : IsUp (λ n. count n kernel.open_fds) 0 server
server-IsUp = record {
  accounts = record {
    balanced = λ n. ground arith;
    no_bad = refl;
    seats = (refl, (refl, (refl, (refl, tt))));
  };
  is_running = refl;
  has_socket = refl;
}

-- A connection that is accepted.
abbrev pass_answers : PassAnswers
pass_answers = record {
  select = pos 1;
  interrupted = false;
  ready = λ fd. eqb_ℤ fd (pos 5);
  accept = pos 6;
  peer = record { sin_addr = 10 ∷ 0 ∷ 0 ∷ 2 ∷ []; sin_port = 5000 };
  recv = λ fd. none;
}

six-IsFresh : IsFresh (pos 6) server.kernel
six-IsFresh n e = ground arith

process-IsUp_example :
    Returns (λ r. IsUp (λ n. count n kernel.open_fds) 0 r.1) (process pass_answers server)
process-IsUp_example =
    process-IsUp pass_answers (λ n. count n kernel.open_fds) 0 server six-IsFresh server-IsUp

start-IsUp_example :
    Returns
      (λ r.
        ((r.0 ≡ success) × IsUp (λ n. count n kernel.open_fds) 0 r.1)
        ⊎ ((r.0 ≡ failure) × (r.1.kernel ≡ kernel) × (r.1.running ≡ false)))
      (start answers (create kernel))
start-IsUp_example = start-IsUp answers (create kernel) (refl, (refl, (refl, (refl, tt)))) refl

-- The server behind that pass.
abbrev connected : Server
connected = record server {
  clients =
      record { fd = pos 6; addr = pass_answers.peer; connected = true; session_id = replicate 64 0 }
      ∷ drop 1 server.clients;
  kernel = record { open_fds = 6 ∷ server.kernel.open_fds; bad_closes = 0 };
}

passed : process pass_answers server ≡ returns (success, connected)
unfolding process accept_client seat found_slot serve serve_client
passed = refl

destroy-start_example :
    Returns
      (λ r.
        (r.1.kernel.bad_closes ≡ 0)
        × ((n : ℕ) → count n r.1.kernel.open_fds ≡ count n kernel.open_fds))
      (destroy connected)
destroy-start_example = destroy-start answers kernel server connected started (
    step server connected connected
      (pass pass_answers server (success, connected) six-IsFresh passed) (stay connected))

handle_client_request_lem_example :
    (handle_client_request (pos 6) none server ≡ returns (failure, server))
    × (handle_client_request (pos 6) (some []) server ≡ returns (failure, server))
    × (handle_client_request (pos 6) (some (codes "SETUP *")) server
        ≡ returns (
          success,
          record server {
            sent =
                messages
                  (pos 6)
                  (replies protocol (c_string (take 4095 (codes "SETUP *"))))
                  server.sent;
          },
        ))
handle_client_request_lem_example = handle_client_request_lem (pos 6) b'S' (codes "ETUP *") server

connected-IsPeer : All (λ client. IsPeer client.addr) connected.clients
connected-IsPeer = ground arith

client_text_runs : client_text pass_answers.peer ≡ codes "10.0.0.2:5000"
unfolding inet_ntoa decimal digits
client_text_runs = refl

get_client_info_lem_example :
    Returns
      (λ r.
        ((any_connected connected.clients ≡ false) × (r.0 ≡ false) × (r.1 ≡ replicate 64 0))
        ⊎ ((client : Client) × (first_connected connected.clients ≡ some client)
            × Describes client r))
      (get_client_info (some connected) (replicate 64 0))
get_client_info_lem_example = get_client_info_lem connected (replicate 64 0) connected-IsPeer refl
