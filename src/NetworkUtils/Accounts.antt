-- ===== src/NetworkUtils/Accounts.antt =====
-- A client of the sockets of src/network_utils.c, and the account of its descriptors.
use airplay.Base.{
  Option, length, true, ℕ, ◌+◌, ◌≤◌, ◌≡◌, refl, ◌∙◌, arith, List, [], ◌∷◌, ℤ, pos, negsuc, returns,
  blocks, faults, M, ret, ◌>>=◌, ◌>>◌, modify, inl, inr, Returns, Returns-mono, Returns-eq,
}
use airplay.Base.Kernel.{Kernel, closed-granted, remove}
use airplay.Base.Descriptors.{count, count-closed, count-remove}
use airplay.NetworkUtils.Sockets.{
  network_is_port_available, network_create_udp_socket, network_create_tcp_socket,
  network_close_socket, Creates, create_sockets-Creates, network_is_port_available_lem,
}
use airplay.NetworkUtils.Mac.{Mac, Query, network_get_mac_address}
use airplay.NetworkUtils.Packets.{airplay_create_discovery_socket}

-- The process, and the descriptors that the client was given and has not closed.
pub record Client : Type 0 where
  pub kernel : Kernel
  pub held : List ℕ

-- The calls, each with the answers of the kernel.
pub data Request : Type 0 where
  udp_request : (socket_answer bind_answer : ℤ) → Request
  tcp_request : (socket_answer bind_answer : ℤ) → Request
  discovery_request : (socket_answer bind_answer : ℤ) → Request
  port_request : (socket_answer bind_answer : ℤ) → Request
  mac_request : (socket_answer : ℤ) (ioctl : List ℕ → Option Mac) (mac_buffer : List ℕ) → Request
  close_request : (close_answer socket_fd : ℤ) → Request

abbrev pub takes : ℤ → Client → Client
takes (pos n) s = record s { held = n ∷ s.held }
takes (negsuc n) s = s

abbrev pub gives_up : ℤ → Client → Client
gives_up (pos n) s = record s { held = remove n s.held }
gives_up (negsuc n) s = s

abbrev pub on_kernel : M Kernel ℤ → M Client ℤ
on_kernel m s = elim (m s.kernel) [
  | returns (a, k) ↦ returns (a, record s { kernel = k })
  | blocks ↦ blocks
  | faults ↦ faults
]

-- network_get_mac_address with the buffer of a client, which ends with the call here.
abbrev pub query : List ℕ → M Query ℤ → M Kernel ℤ
query buffer m k = elim (m (record { kernel = k; buffer = buffer })) [
  | returns (a, q) ↦ returns (a, q.kernel)
  | blocks ↦ blocks
  | faults ↦ faults
]

abbrev pub create : M Kernel ℤ → M Client ℤ
create m = do fd ← on_kernel m; modify (takes fd); ret fd

unfoldable pub request : Request → M Client ℤ
request (udp_request s b) = create (network_create_udp_socket s b)
request (tcp_request s b) = create (network_create_tcp_socket s b)
request (discovery_request s b) = create (airplay_create_discovery_socket s b)
request (port_request s b) = on_kernel (network_is_port_available s b)
request (close_request a fd) = do
  status ← on_kernel (network_close_socket a fd)
  modify (gives_up fd)
  ret status
request (mac_request s ioctl buffer) =
    on_kernel (query buffer (network_get_mac_address s ioctl true (length buffer)))

unfoldable pub run_requests : List Request → M Client (List ℤ)
unfolding request
run_requests [] = ret []
run_requests (c ∷ cs) = do status ← request c; rest ← run_requests cs; ret (status ∷ rest)

-- A client closes what it holds, or a negative number.
abbrev pub IsAllowed : Request → Client → Type 0
IsAllowed (close_request a (pos m)) s = 1 ≤ count m s.held
IsAllowed (close_request a (negsuc m)) s = Unit
IsAllowed (udp_request a b) s = Unit
IsAllowed (tcp_request a b) s = Unit
IsAllowed (discovery_request a b) s = Unit
IsAllowed (port_request a b) s = Unit
IsAllowed (mac_request a ioctl buffer) s = Unit

-- Each request is allowed in the state in which it comes.
abbrev pub AllAllowed : List Request → Client → Type 0
AllAllowed [] s = Unit
AllAllowed (c ∷ cs) s =
    IsAllowed c s × ((r : ℤ × Client) → request c s ≡ returns r → AllAllowed cs r.1)

-- Beside the descriptors of the kernel `k`, those are open that the client holds, and every close hit an open one.
abbrev pub Balances : Kernel → Client → Type 0
Balances k s =
    (s.kernel.bad_closes ≡ k.bad_closes)
    × ((n : ℕ) → count n s.kernel.open_fds ≡ count n s.held + count n k.open_fds)

-- A socket that is created is taken, and one that is not leaves nothing.
create-Balances :
    (m : M Kernel ℤ) (k : Kernel) (s : Client)
    → Returns (Creates s.kernel) (m s.kernel)
    → Balances k s
    → Returns (λ r. Balances k r.1) (create m s)
create-Balances m k s c b =
    let ((fd, l), e, d) = Returns-eq (Creates s.kernel) (m s.kernel) c in
    elim d [
      | inl (n, f, g) ↦ rw (e, create, on_kernel, ◌>>=◌, f, g) (b.0, λ i. omega (arith, b.1 i))
      | inr (f, g) ↦ rw (e, create, on_kernel, ◌>>=◌, f, g) b
    ]

close-Balances :
    (a fd : ℤ) (k : Kernel) (s : Client)
    → IsAllowed (close_request a fd) s
    → Balances k s
    → Returns (λ r. Balances k r.1) (request (close_request a fd) s)
unfolding request network_close_socket
close-Balances a (negsuc m) k s h b = b
close-Balances a (pos m) k s h b =
    let open_m : 1 ≤ count m s.kernel.open_fds = omega (arith, h, b.1 m) in
    (
      (count-closed m m s.kernel open_m).1 ∙ b.0,
      λ n. omega (arith, (count-closed m n s.kernel open_m).0, count-remove m n s.held h, b.1 n),
    )

port-Balances :
    (a b : ℤ) (k : Kernel) (s : Client)
    → Balances k s
    → Returns (λ r. Balances k r.1) (request (port_request a b) s)
unfolding request
port-Balances a b k s h =
    let ((status, l), e, same) =
      Returns-eq (λ r. r.1 ≡ s.kernel) (network_is_port_available a b s.kernel)
        (Returns-mono _ _ (network_is_port_available a b s.kernel)
          (network_is_port_available_lem a b s.kernel) λ r x. x.0) in
    rw (e, on_kernel, same) h

-- A query of the address, with any buffer and whatever socket answers, gives back its socket.
mac-Kept :
    (a : ℤ) (ioctl : List ℕ → Option Mac) (s : Query)
    → Returns
        (λ r. r.1.kernel ≡ s.kernel)
        (network_get_mac_address a ioctl true (length s.buffer) s)
unfolding network_get_mac_address
mac-Kept (pos m) ioctl s = ground (arith, closed-granted m s.kernel)
mac-Kept (negsuc m) ioctl s = ground arith

mac-Balances :
    (a : ℤ) (ioctl : List ℕ → Option Mac) (buffer : List ℕ) (k : Kernel) (s : Client)
    → Balances k s
    → Returns (λ r. Balances k r.1) (request (mac_request a ioctl buffer) s)
unfolding request
mac-Balances a ioctl buffer k s h =
    let q : Query = record { kernel = s.kernel; buffer = buffer } in
    let ((status, l), e, same) =
      Returns-eq (λ r. r.1.kernel ≡ s.kernel)
        (network_get_mac_address a ioctl true (length buffer) q) (mac-Kept a ioctl q) in
    rw (e, on_kernel, query, same) h

request-Balances :
    (c : Request) (k : Kernel) (s : Client)
    → IsAllowed c s
    → Balances k s
    → Returns (λ r. Balances k r.1) (request c s)
unfolding request airplay_create_discovery_socket
request-Balances (udp_request a b) k s h =
    create-Balances (network_create_udp_socket a b) k s (create_sockets-Creates a b s.kernel).0
request-Balances (tcp_request a b) k s h =
    create-Balances (network_create_tcp_socket a b) k s (create_sockets-Creates a b s.kernel).1
request-Balances (discovery_request a b) k s h =
    create-Balances (network_create_udp_socket a b) k s (create_sockets-Creates a b s.kernel).0
request-Balances (port_request a b) k s h = port-Balances a b k s
request-Balances (mac_request a ioctl buffer) k s h = mac-Balances a ioctl buffer k s
request-Balances (close_request a fd) k s h = close-Balances a fd k s h

requests-Balance :
    (cs : List Request) (k : Kernel) (s : Client)
    → AllAllowed cs s
    → Balances k s
    → Returns (λ r. Balances k r.1) (run_requests cs s)
unfolding run_requests
requests-Balance [] k s h b = b
requests-Balance (c ∷ cs) k s h b =
    let ((status, t), e, d) =
      Returns-eq (λ r. Balances k r.1) (request c s) (request-Balances c k s h.0 b) in
    let ((rest, u), f, g) =
      Returns-eq (λ r. Balances k r.1) (run_requests cs t)
        (requests-Balance cs k t (h.1 (status, t) e) d) in
    rw (e, ◌>>=◌, f) g

-- A client that creates UDP, TCP and discovery sockets, asks about ports and for the MAC address, and closes only what it holds, in any
-- order, and whatever socket, bind, ioctl and close answer: every call returns, no close hits a number that is not open,
-- and of each number as many descriptors are open as at the start, and beside them those that the client was
-- given and has not closed.
pub run_requests-Balances :
    (cs : List Request) (k : Kernel)
    → AllAllowed cs (record { kernel = k; held = [] })
    → Returns
        (λ r.
          (r.1.kernel.bad_closes ≡ k.bad_closes)
          × ((n : ℕ) → count n r.1.kernel.open_fds ≡ count n r.1.held + count n k.open_fds))
        (run_requests cs (record { kernel = k; held = [] }))
run_requests-Balances cs k h =
    requests-Balance cs k (record { kernel = k; held = [] }) h (refl, λ n. omega arith)
