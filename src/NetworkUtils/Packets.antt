-- ===== src/NetworkUtils/Packets.antt =====
-- The packets of src/network_utils.c, the response that is sent as one, and the mDNS placeholders.
use airplay.Base.{
  ◌⊎◌, inl, inr, Returns-mono, ℕ, zero, suc, sym, ◌∙◌, ◌≤◌, ◌<◌, ◌≡◌, refl, arith, Bool, true,
  false, not, ◌||◌, List, [], ◌∷◌, ◌++◌, Option, none, some, length, take, drop, ltb, leb,
  if◌then◌else◌, ℤ, pos, success, failure, is_negative, eqb_ℤ, Outcome, returns, faults, M, ret,
  ◌>>=◌, ◌>>◌, get, modify, branch, Returns, c_string, c_string-terminated, IsString, length-take,
  length-append, min, ap, blocks,
}
use airplay.Base.Kernel.{Kernel}
use airplay.NetworkUtils.Discovery.{discovery_response}
use airplay.NetworkUtils.Sockets.{network_create_udp_socket}

-- A datagram that is handed to sendto, with the address that inet_pton made of the text.
pub record Packet : Type 0 where
  pub socket : ℤ
  pub sin_addr : ℕ
  pub sin_port : ℕ
  pub payload : List ℕ

-- The body of `network_send_udp_packet` for pointers that are not null. The state is what was sent, the
-- newest first; `inet_pton` and the answer of sendto are arguments.
send : (List ℕ → Option ℕ) → ℤ → ℤ → List ℕ → ℕ → List ℕ → M (List Packet) ℤ
send inet_pton sendto_answer socket_fd ip port bytes sent = elim (inet_pton ip) [
  | none ↦ returns (failure, sent)
  | some address ↦ returns (
    if eqb_ℤ sendto_answer (pos (length bytes)) then success else failure,
    record { socket = socket_fd; sin_addr = address; sin_port = port; payload = bytes } ∷ sent,
  )
]

abbrev is_empty : List ℕ → Bool
is_empty [] = true
is_empty (x ∷ xs) = false

-- `ip` and the bytes are none where the pointer is NULL.
unfoldable pub network_send_udp_packet :
    (List ℕ → Option ℕ) → ℤ → ℤ → Option (List ℕ) → ℕ → Option (List ℕ) → M (List Packet) ℤ
unfolding send
network_send_udp_packet inet_pton sendto_answer socket_fd none port bytes = ret failure
network_send_udp_packet inet_pton sendto_answer socket_fd (some ip) port none = ret failure
network_send_udp_packet inet_pton sendto_answer socket_fd (some ip) port (some bytes) =
    branch (is_negative socket_fd || is_empty bytes) (ret failure)
      (send inet_pton sendto_answer socket_fd ip port bytes)

unfoldable pub airplay_send_discovery_response :
    (List ℕ → Option ℕ) → ℤ → ℤ → Option (List ℕ) → ℕ → M (List Packet) ℤ
unfolding network_send_udp_packet
airplay_send_discovery_response inet_pton sendto_answer socket_fd client_ip client_port =
    network_send_udp_packet inet_pton sendto_answer socket_fd client_ip client_port
      (some discovery_response)

-- What the four pointers of `network_receive_udp_packet` lead to.
pub record Arrival : Type 0 where
  pub ip_buffer : List ℕ
  pub port : ℕ
  pub data_buffer : List ℕ
  pub capacity : ℕ

-- A datagram that waits at a socket, with the text of its sender's address.
pub record Waiting : Type 0 where
  pub bytes : List ℕ
  pub sender : List ℕ
  pub sender_port : ℕ

-- Bytes at the start of a block, undefined past its end.
abbrev overwrite : List ℕ → List ℕ → Outcome (List ℕ)
overwrite bytes block = elim (ltb (length block) (length bytes)) [
  | true ↦ faults
  | false ↦ returns (bytes ++ drop (length bytes) block)
]

abbrev fill_data : List ℕ → M Arrival (Unit {0})
fill_data bytes s = elim (overwrite bytes s.data_buffer) [
  | returns block ↦ returns (tt, record s { data_buffer = block })
  | blocks ↦ faults
  | faults ↦ faults
]

abbrev fill_ip : List ℕ → M Arrival (Unit {0})
fill_ip bytes s = elim (overwrite bytes s.ip_buffer) [
  | returns block ↦ returns (tt, record s { ip_buffer = block })
  | blocks ↦ faults
  | faults ↦ faults
]

-- The body for pointers that are not null. recvfrom cuts the datagram off at `*length`. inet_ntop fails where the
-- text and its NUL do not fit the size, and `leftover` are the bytes that it has written then: of a text and a size,
-- since libraries differ in that.
receive : (List ℕ → ℕ → List ℕ) → Option Waiting → ℕ → M Arrival ℤ
receive leftover none ip_buffer_size = ret failure
receive leftover (some w) ip_buffer_size = do
  s ← get
  let bytes = take s.capacity w.bytes
  fill_data bytes
  modify λ t. record t { capacity = length bytes; port = w.sender_port }
  branch (leb ip_buffer_size (length w.sender))
      (do fill_ip (leftover w.sender ip_buffer_size); ret failure)
      (do fill_ip (w.sender ++ 0 ∷ []); ret success)

-- `waiting` is none where recvfrom fails, and `pointers` says that none of the four is null.
unfoldable pub network_receive_udp_packet :
    (List ℕ → ℕ → List ℕ) → Option Waiting → ℤ → Bool → ℕ → M Arrival ℤ
unfolding receive
network_receive_udp_packet leftover waiting socket_fd pointers ip_buffer_size =
    branch (is_negative socket_fd || not pointers) (ret failure)
      (receive leftover waiting ip_buffer_size)

-- The placeholders write a line to the log.
abbrev pub mdns_register_service : List ℕ → List ℕ → ℕ → List ℕ → ℤ
mdns_register_service service_name service_type port txt_record = success

abbrev pub mdns_unregister_service : List ℕ → List ℕ → ℤ
mdns_unregister_service service_name service_type = success

abbrev pub mdns_browse_services : List ℕ → ℤ
mdns_browse_services service_type = success

-- On the port of mDNS.
unfoldable pub airplay_create_discovery_socket : ℤ → ℤ → M Kernel ℤ
airplay_create_discovery_socket socket_answer bind_answer =
    network_create_udp_socket socket_answer bind_answer

append_assoc_text : (text rest : List ℕ) → (text ++ 0 ∷ []) ++ rest ≡ text ++ 0 ∷ rest
append_assoc_text [] rest = refl
append_assoc_text (c ∷ text) rest = ap (◌∷◌ c) (append_assoc_text text rest)

-- The text of an address is a C string.
abbrev pub IsSender : Option Waiting → Type 0
IsSender none = Unit
IsSender (some w) = IsString w.sender

-- inet_ntop writes no more bytes than it is told.
abbrev pub StaysWithin : (List ℕ → ℕ → List ℕ) → Type 0
StaysWithin leftover = (text : List ℕ) (size : ℕ) → length (leftover text size) ≤ size

drop-over :
    (bytes block : List ℕ) (n : ℕ)
    → length bytes ≤ n
    → drop n (bytes ++ drop (length bytes) block) ≡ drop n block
drop-over [] block n h = refl
drop-over (x ∷ bytes) block zero h = elim h [ ]
drop-over (x ∷ bytes) [] (suc n) h =
    ap (λ b. drop n (bytes ++ b)) (sym (drop-empty (length bytes)))
    ∙ drop-over bytes [] n (omega arith)
    ∙ drop-empty n
  where
    drop-empty : (n : ℕ) → drop {A = ℕ} n [] ≡ []
    drop-empty zero = refl
    drop-empty (suc n) = refl
drop-over (x ∷ bytes) (y ∷ block) (suc n) h = drop-over bytes block n (omega arith)

-- What has arrived, whatever becomes of the sender's address.
abbrev pub Received : Waiting → Arrival → Arrival → Type 0
Received w s t =
    (t.capacity ≡ min s.capacity (length w.bytes))
    × (t.data_buffer ≡ take s.capacity w.bytes ++ drop t.capacity s.data_buffer)
    × (t.port ≡ w.sender_port)

-- A call on a descriptor with four pointers, and buffers that have the sizes that are told. If recvfrom fails, the call
-- is -1 and nothing changes. Otherwise the data buffer starts with as many bytes of the datagram as fit, their number
-- is the new length, the bytes behind them are as they were, and the port is the sender's. Then the call returns 0 with
-- the sender's address as a C string; or, where the address and its NUL do not fit, -1, and the address's buffer is as it
-- was behind the size that is told, whatever inet_ntop has written before. inet_ntop writes no more bytes than it is told.
pub network_receive_udp_packet_lem :
    (leftover : List ℕ → ℕ → List ℕ) (waiting : Option Waiting) (fd ip_buffer_size : ℕ)
    (s : Arrival)
    → StaysWithin leftover
    → IsSender waiting
    → ip_buffer_size ≤ length s.ip_buffer
    → s.capacity ≤ length s.data_buffer
    → Returns
        (λ r.
          ((waiting ≡ none) × (r.0 ≡ failure) × (r.1 ≡ s))
          ⊎ ((w : Waiting) × (waiting ≡ some w)
              × Received w s r.1
              × (((length w.sender < ip_buffer_size)
                    × (r.0 ≡ success)
                    × (c_string r.1.ip_buffer ≡ w.sender))
                  ⊎ ((ip_buffer_size ≤ length w.sender)
                      × (r.0 ≡ failure)
                      × (drop ip_buffer_size r.1.ip_buffer ≡ drop ip_buffer_size s.ip_buffer)))))
        (network_receive_udp_packet leftover waiting (pos fd) true ip_buffer_size s)
unfolding network_receive_udp_packet
network_receive_udp_packet_lem leftover none fd n s m i k c = inl (refl, refl, refl)
network_receive_udp_packet_lem leftover (some w) fd n s m i k c =
    let run : Returns
        (λ r.
          Received w s r.1
          × (((length w.sender < n) × (r.0 ≡ success) × (c_string r.1.ip_buffer ≡ w.sender))
              ⊎ ((n ≤ length w.sender)
                  × (r.0 ≡ failure)
                  × (drop n r.1.ip_buffer ≡ drop n s.ip_buffer))))
        (network_receive_udp_packet leftover (some w) (pos fd) true n s) =
      ground (
        arith,
        length-take s.capacity w.bytes,
        length-append w.sender (0 ∷ []),
        m w.sender n,
        drop-over (leftover w.sender n) s.ip_buffer n (m w.sender n),
        append_assoc_text w.sender (drop (length (w.sender ++ 0 ∷ [])) s.ip_buffer),
        c_string-terminated w.sender (drop (length (w.sender ++ 0 ∷ [])) s.ip_buffer) i,
      ) in
    Returns-mono _ _ (network_receive_udp_packet leftover (some w) (pos fd) true n s) run
      λ r h. inr (w, refl, h.0, h.1)
