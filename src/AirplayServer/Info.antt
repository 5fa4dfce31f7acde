-- ===== src/AirplayServer/Info.antt =====
-- airplay_server_get_client_info: the text about a client.
use mathlib.Core.List.{append_assoc}
use airplay.Base.{
  ℕ, ◌-◌, ◌*◌, ◌≤◌, ◌<◌, ◌≡◌, ◌≢◌, refl, ap, ◌∙◌, ◌⊎◌, inl, inr, Bool, true, false, Option, none,
  some, List, [], ◌∷◌, ◌++◌, length, length-append, take, take_all, All, All-append, All-mono,
  length-strcpy, Bool-cases, IsString, strcpy, c_string, c_string-strcpy, arith, returns, M,
  Returns,
}
use airplay.Base.Decimal.{
  decimal, read_decimal_last, read_numbers, read_decimal, IsDigit, decimal-IsDigit, length-decimal,
}
use airplay.AirplayServer.State.{Peer, Client, Server}
use airplay.AirplayServer.Settings.{first_connected, any_connected}

-- inet_ntoa, on the bytes of an address.
unfoldable pub inet_ntoa : List ℕ → List ℕ
inet_ntoa [] = []
inet_ntoa (b ∷ []) = decimal b
inet_ntoa (b ∷ c ∷ bytes) = decimal b ++ b'.' ∷ inet_ntoa (c ∷ bytes)

abbrev pub client_text : Peer → List ℕ
client_text peer = inet_ntoa peer.sin_addr ++ b':' ∷ decimal peer.sin_port

-- snprintf writes at most `size - 1` characters of the text, and a NUL.
abbrev snprintf : List ℕ → ℕ → List ℕ → List ℕ
snprintf array size text = strcpy array (take (size - 1) text)

-- The state is the static array `client_info`. The result says whether the pointer to it is returned, and not
-- the null pointer.
unfoldable pub get_client_info : Option Server → M (List ℕ) Bool
unfolding first_connected
get_client_info none client_info = returns (false, client_info)
get_client_info (some server) client_info = elim (first_connected server.clients) [
  | none ↦ returns (false, client_info)
  | some client ↦ returns (true, snprintf client_info 64 (client_text client.addr))
]

abbrev IsByte : ℕ → Type 0
IsByte b = b < 256

-- An IPv4 address and a port.
abbrev pub IsPeer : Peer → Type 0
IsPeer peer = (length peer.sin_addr ≡ 4) × All IsByte peer.sin_addr × (peer.sin_port < 65536)

read_inet_ntoa :
    (b : ℕ) (bytes rest : List ℕ)
    → read_numbers 0 (inet_ntoa (b ∷ bytes) ++ b':' ∷ rest) ≡ (b ∷ bytes) ++ read_numbers 0 rest
unfolding inet_ntoa read_numbers
read_inet_ntoa b [] rest = read_decimal b (b':' ∷ rest)
read_inet_ntoa b (c ∷ bytes) rest =
    rw (append_assoc (decimal b) (b'.' ∷ inet_ntoa (c ∷ bytes)) (b':' ∷ rest)) (
      read_decimal b (b'.' ∷ inet_ntoa (c ∷ bytes) ++ b':' ∷ rest)
      ∙ ap (◌∷◌ b) (read_inet_ntoa c bytes rest))

decimal-IsString : (n : ℕ) → IsString (decimal n)
decimal-IsString n =
    All-mono IsDigit (λ x. x ≢ 0) (decimal n) (λ x d. ground (arith, d)) (decimal-IsDigit n)

inet_ntoa-IsString : (bytes : List ℕ) → IsString (inet_ntoa bytes)
unfolding inet_ntoa
inet_ntoa-IsString [] = tt
inet_ntoa-IsString (b ∷ []) = decimal-IsString b
inet_ntoa-IsString (b ∷ c ∷ bytes) =
    All-append (λ x. x ≢ 0) (decimal b) (b'.' ∷ inet_ntoa (c ∷ bytes)) (decimal-IsString b)
      ((λ e. absurd (cc e)), inet_ntoa-IsString (c ∷ bytes))

client_text-IsString : (peer : Peer) → IsString (client_text peer)
client_text-IsString peer =
    All-append (λ x. x ≢ 0) (inet_ntoa peer.sin_addr) (b':' ∷ decimal peer.sin_port)
      (inet_ntoa-IsString peer.sin_addr) ((λ e. absurd (cc e)), decimal-IsString peer.sin_port)

-- Three digits and a dot or colon for each byte.
length-inet_ntoa : (bytes : List ℕ) → All IsByte bytes → length (inet_ntoa bytes) ≤ 4 * length bytes
unfolding inet_ntoa
length-inet_ntoa [] h = omega arith
length-inet_ntoa (b ∷ []) h = omega (arith, h.0, length-decimal 2 b (omega (arith, h.0)))
length-inet_ntoa (b ∷ c ∷ bytes) h = omega (
  arith,
  length-append (decimal b) (b'.' ∷ inet_ntoa (c ∷ bytes)),
  length-decimal 2 b (omega (arith, h.0)),
  length-inet_ntoa (c ∷ bytes) h.1,
)

length-client_text : (peer : Peer) → IsPeer peer → length (client_text peer) ≤ 22
length-client_text peer h = omega (
  arith,
  h.0,
  length-append (inet_ntoa peer.sin_addr) (b':' ∷ decimal peer.sin_port),
  length-inet_ntoa peer.sin_addr h.1,
  length-decimal 4 peer.sin_port (omega (arith, h.2)),
)

read_text :
    (bytes : List ℕ) (port : ℕ)
    → 1 ≤ length bytes
    → read_numbers 0 (inet_ntoa bytes ++ b':' ∷ decimal port) ≡ bytes ++ port ∷ []
read_text [] port h = elim h [ ]
read_text (b ∷ bytes) port h =
    read_inet_ntoa b bytes (decimal port) ∙ ap (◌++◌ (b ∷ bytes)) (read_decimal_last port)

-- What a call leaves, where it returns a pointer to the text about a client.
abbrev pub Describes : Client → Bool × List ℕ → Type 0
Describes client r =
    (r.0 ≡ true)
    × (client.connected ≡ true)
    × (length r.1 ≡ 64)
    × (c_string r.1 ≡ client_text client.addr)
    × (length (c_string r.1) ≤ 22)
    × (read_numbers 0 (c_string r.1) ≡ client.addr.sin_addr ++ client.addr.sin_port ∷ [])

written-Describes :
    (client : Client) (client_info : List ℕ)
    → client.connected ≡ true
    → IsPeer client.addr
    → length client_info ≡ 64
    → Describes client (true, snprintf client_info 64 (client_text client.addr))
written-Describes client client_info c h l =
    let text : List ℕ = client_text client.addr in
    let short : length text ≤ 22 = length-client_text client.addr h in
    let whole : take 63 text ≡ text = take_all 63 text (omega arith) in
    let held : c_string (strcpy client_info (take 63 text)) ≡ text =
      rw whole
        (c_string-strcpy client_info text (client_text-IsString client.addr) (omega (arith, l))) in
    (
      refl,
      c,
      length-strcpy client_info (take 63 text) ∙ l,
      held,
      rw held short,
      rw held (read_text client.addr.sin_addr client.addr.sin_port (omega (arith, h.0))),
    )

first_connected-All :
    (clients : List Client)
    → All (λ client. IsPeer client.addr) clients
    → ((any_connected clients ≡ false) × (first_connected clients ≡ none))
      ⊎ ((client : Client) × (first_connected clients ≡ some client)
          × (client.connected ≡ true)
          × IsPeer client.addr)
unfolding first_connected any_connected
first_connected-All [] h = inl (refl, refl)
first_connected-All (client ∷ clients) h = elim (Bool-cases client.connected) [
  | inl c ↦ inr (client, ground (arith, c), c, h.0)
  | inr free ↦ elim (first_connected-All clients h.1) [
    | inl none_left ↦ inl (ground (arith, free, none_left))
    | inr (found, e, c, k) ↦ inr (found, ground (arith, free, e), c, k)
  ]
]

-- On a server whose clients have IPv4 addresses and ports, and an array of 64 bytes, get_client_info either
-- finds no client connected, returns the null pointer and leaves the array; or it writes the address and the
-- port of the first connected client, in at most 22 characters and a NUL. Nothing is cut off: the five
-- numbers of the client are read back from the text.
pub get_client_info_lem :
    (server : Server) (client_info : List ℕ)
    → All (λ client. IsPeer client.addr) server.clients
    → length client_info ≡ 64
    → Returns
        (λ r.
          ((any_connected server.clients ≡ false) × (r.0 ≡ false) × (r.1 ≡ client_info))
          ⊎ ((client : Client) × (first_connected server.clients ≡ some client)
              × Describes client r))
        (get_client_info (some server) client_info)
unfolding get_client_info first_connected any_connected
get_client_info_lem server client_info h l = elim (first_connected-All server.clients h) [
  | inl (free, e) ↦
      let run : get_client_info (some server) client_info ≡ returns (false, client_info) =
        ground (arith, e) in
      rw run (inl (free, refl, refl))
  | inr (client, e, c, k) ↦
      let run : get_client_info (some server) client_info
          ≡ returns (true, snprintf client_info 64 (client_text client.addr)) =
        ground (arith, e) in
      rw run (inr (client, e, written-Describes client client_info c k l))
]
