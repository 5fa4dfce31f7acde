-- ===== src/NetworkUtils/Examples.antt =====
-- The network helpers on concrete answers of the kernel.
use airplay.NetworkUtils.Sockets.{network_create_udp_socket, network_create_tcp_socket}
use airplay.NetworkUtils.Accounts.{
  Request, discovery_request, tcp_request, mac_request, close_request, request, run_requests,
  AllAllowed, run_requests-Balances,
}
use airplay.Base.Descriptors.{count}
use airplay.Base.{
  drop, length-take, ◌+◌, negsuc, ◌⊎◌, failure, returns, ◌<◌, ◌≤◌, ℕ, ◌≡◌, refl, arith, true, false,
  Option, none, some, List, [], ◌∷◌, length, take, replicate, codes, strncmp_eq, IsString, c_string,
  pos, success, faults, Returns, ◌==◌, if◌then◌else◌,
}
use airplay.Base.Kernel.{Kernel}
use airplay.NetworkUtils.Interfaces.{
  Interface, Local, Prior, First, skipped, network_get_local_ip, network_get_local_ip_lem,
}
use airplay.NetworkUtils.Mac.{
  Mac, Query, Reports, first_mac, network_get_mac_address, network_get_mac_address_lem,
}
use airplay.NetworkUtils.Packets.{
  airplay_create_discovery_socket, Waiting, Arrival, Received, StaysWithin,
  network_receive_udp_packet, network_receive_udp_packet_lem,
}
use airplay.NetworkUtils.Discovery.{
  airplay_handle_discovery_request, discovery_response, airplay_handle_discovery_request_lem,
}

abbrev kernel : Kernel
kernel = record { open_fds = 0 ∷ 1 ∷ 2 ∷ []; bad_closes = 0 }

-- A socket, one whose port is taken, a query with an empty buffer, and the close of the first socket.
abbrev requests : List Request
requests =
    discovery_request (pos 5) (pos 0)
    ∷ tcp_request (pos 6) (negsuc 0)
    ∷ mac_request (pos 6) (λ name. none) []
    ∷ close_request (pos 0) (pos 5)
    ∷ []

requests-AllAllowed : AllAllowed requests (record { kernel = kernel; held = [] })
unfolding request network_create_udp_socket network_create_tcp_socket
    airplay_create_discovery_socket network_get_mac_address
requests-AllAllowed =
    (tt, λ r p. (tt, λ r' p'. (tt, λ r'' p''. (ground (arith, p, p', p''), λ q e. tt))))

run_requests-Balances_example :
    Returns
      (λ r.
        (r.1.kernel.bad_closes ≡ 0)
        × ((n : ℕ) → count n r.1.kernel.open_fds ≡ count n r.1.held + count n kernel.open_fds))
      (run_requests requests (record { kernel = kernel; held = [] }))
run_requests-Balances_example = run_requests-Balances requests kernel requests-AllAllowed

abbrev loopback : Interface
loopback = record {
  has_address = true;
  is_inet = true;
  is_loopback = true;
  is_up = true;
  ip = codes "127.0.0.1";
}

abbrev ethernet : Interface
ethernet = record {
  has_address = true;
  is_inet = true;
  is_loopback = false;
  is_up = true;
  ip = codes "10.0.0.2";
}

abbrev room : Local
room = record { buffer = replicate 16 0; lists = 0 }

ethernet-IsString : IsString ethernet.ip
ethernet-IsString = (
  omega arith,
  (
    omega arith,
    (omega arith, (omega arith, (omega arith, (omega arith, (omega arith, (omega arith, tt)))))),
  ),
)

loopback-IsString : IsString loopback.ip
loopback-IsString = ground arith

not_skipped : skipped ethernet ≡ false
unfolding strncmp_eq
not_skipped = refl

abbrev entries : List Interface
entries = loopback ∷ ethernet ∷ []

-- It is the second one.
usable : First entries (loopback ∷ []) ethernet []
usable = (refl, (refl, tt), not_skipped)

network_get_local_ip_lem_example :
    (Prior entries × (network_get_local_ip (some entries) true 16 room ≡ returns (failure, room)))
    ⊎ ((before : List Interface) × (ifa : Interface) × (after : List Interface) × First entries
          before ifa after
        × Returns
            (λ r. (r.0 ≡ success) × (r.1.lists ≡ 0) × (c_string r.1.buffer ≡ take 15 ifa.ip))
            (network_get_local_ip (some entries) true 16 room))
network_get_local_ip_lem_example =
    network_get_local_ip_lem entries 16 room (loopback-IsString, (ethernet-IsString, tt))
      (omega arith) (omega arith)

abbrev mac : Mac
mac = record { byte₀ = 0; byte₁ = 17; byte₂ = 34; byte₃ = 170; byte₄ = 187; byte₅ = 255 }

-- Only the second name has an address.
abbrev ioctl : List ℕ → Option Mac
ioctl [] = none
ioctl (c ∷ cs) = if c == b'w' then some mac else none

abbrev query : Query
query = record { kernel = kernel; buffer = replicate 20 0 }

network_get_mac_address_lem_example :
    Returns (Reports (first_mac ioctl) query) (network_get_mac_address (pos 5) ioctl true 20 query)
network_get_mac_address_lem_example =
    network_get_mac_address_lem 5 ioctl 20 query (omega arith) (omega arith)

-- A block of 76 bytes.
airplay_handle_discovery_request_lem_example :
    ((76 < length discovery_response)
      × (airplay_handle_discovery_request true true (some 76) (replicate 76 0)
          ≡ returns ((failure, some 76), replicate 76 0)))
    ⊎ ((76 ≡ length discovery_response)
        × (airplay_handle_discovery_request true true (some 76) (replicate 76 0) ≡ faults))
    ⊎ ((length discovery_response < 76)
        × Returns
            (λ r.
              (r.0 ≡ (success, some (length discovery_response)))
              × (c_string r.1 ≡ discovery_response))
            (airplay_handle_discovery_request true true (some 76) (replicate 76 0)))
airplay_handle_discovery_request_lem_example = airplay_handle_discovery_request_lem (replicate 76 0)

abbrev waiting : Waiting
waiting = record { bytes = 1 ∷ 2 ∷ 3 ∷ []; sender = codes "10.0.0.2"; sender_port = 6000 }

-- Room for two bytes.
abbrev arrival : Arrival
arrival = record { ip_buffer = replicate 16 0; port = 0; data_buffer = replicate 4 9; capacity = 2 }

-- An inet_ntop that leaves the start of the text.
abbrev cut : List ℕ → ℕ → List ℕ
cut text size = take size text

cut-StaysWithin : StaysWithin cut
cut-StaysWithin text size = omega (arith, length-take size text)

network_receive_udp_packet_lem_example :
    Returns
      (λ r.
        ((some waiting ≡ none) × (r.0 ≡ failure) × (r.1 ≡ arrival))
        ⊎ ((w : Waiting) × (some waiting ≡ some w)
            × Received w arrival r.1
            × (((length w.sender < 16) × (r.0 ≡ success) × (c_string r.1.ip_buffer ≡ w.sender))
                ⊎ ((16 ≤ length w.sender)
                    × (r.0 ≡ failure)
                    × (drop 16 r.1.ip_buffer ≡ drop 16 arrival.ip_buffer)))))
      (network_receive_udp_packet cut (some waiting) (pos 5) true 16 arrival)
network_receive_udp_packet_lem_example =
    network_receive_udp_packet_lem cut (some waiting) 5 16 arrival cut-StaysWithin ethernet-IsString
      (omega arith) (omega arith)
