-- ===== src/AirplayServer/Responses.antt =====
-- The responses of src/airplay_server.c, for each kind of request.
use airplay.Base.{
  ℕ, Bool, ◌||◌, if◌then◌else◌, ◌≡◌, refl, sym, Bool-cases, none, some, List, [], ◌∷◌, ◌++◌, take,
  c_string, strncmp_eq, codes, line, ℤ, success, failure, returns, arith, inl, inr,
}
use airplay.AirplayServer.State.{Server, Message}
use airplay.AirplayServer.Requests.{
  http_response, rtsp_response, is_http, is_rtsp, handle_http_request, handle_rtsp_request,
  handle_client_request,
}

-- snprintf does not cut a response off.
take-rtsp_response : (request : List ℕ) → take 1023 (rtsp_response request) ≡ rtsp_response request
unfolding rtsp_response
take-rtsp_response request = elim (Bool-cases (strncmp_eq request (codes "ANNOUNCE"))) [
  | inl e ↦ rw e refl
  | inr e ↦ elim (Bool-cases (strncmp_eq request (codes "SETUP"))) [
    | inl f ↦ rw (e, f) refl
    | inr f ↦ elim (Bool-cases (strncmp_eq request (codes "RECORD"))) [
      | inl g ↦ rw (e, f, g) refl
      | inr g ↦ rw (e, f, g) refl
    ]
  ]
]

-- The four replies.
abbrev empty_document : List ℕ
empty_document =
    line "HTTP/1.1 200 OK"
    ++ line "Content-Type: text/x-apple-plist+xml"
    ++ line "Content-Length: 0"
    ++ line ""

abbrev first_reply : List ℕ
first_reply = line "RTSP/1.0 200 OK" ++ line "CSeq: 1" ++ line "Server: AirPlay/220.68" ++ line ""

abbrev transport_reply : List ℕ
transport_reply =
    line "RTSP/1.0 200 OK"
    ++ line "CSeq: 2"
    ++ line "Server: AirPlay/220.68"
    ++ line "Transport: RTP/AVP/UDP;unicast;interleaved=0-1"
    ++ line ""

abbrev third_reply : List ℕ
third_reply = line "RTSP/1.0 200 OK" ++ line "CSeq: 3" ++ line "Server: AirPlay/220.68" ++ line ""

-- What a request is answered with that begins with a method.
abbrev pub protocol : List (List ℕ × List ℕ)
protocol =
    (codes "OPTIONS", empty_document)
    ∷ (codes "POST", empty_document)
    ∷ (codes "GET", empty_document)
    ∷ (codes "ANNOUNCE", first_reply)
    ∷ (codes "SETUP", transport_reply)
    ∷ (codes "RECORD", third_reply)
    ∷ (codes "PAUSE", first_reply)
    ∷ (codes "FLUSH", first_reply)
    ∷ (codes "TEARDOWN", first_reply)
    ∷ []

-- The reply of the first row whose method the request begins with, if there is one.
abbrev pub replies : List (List ℕ × List ℕ) → List ℕ → List (List ℕ)
replies [] request = []
replies (row ∷ rows) request = if strncmp_eq request row.0 then row.1 ∷ [] else replies rows request

-- The two ways to tell nine methods apart.
dispatched :
    (o p g a s r h f t : Bool) (document one two three : List ℕ)
    → (if o || p || g
        then document ∷ []
        else if a || s || r || h || f || t
        then (if a then one else if s then two else if r then three else one) ∷ []
        else [])
      ≡ (if o
          then document ∷ []
          else if p
          then document ∷ []
          else if g
          then document ∷ []
          else if a
          then one ∷ []
          else if s
          then two ∷ []
          else if r
          then three ∷ []
          else if h
          then one ∷ []
          else if f
          then one ∷ []
          else if t
          then one ∷ []
          else [])
dispatched o p g a s r h f t document one two three = ground arith

-- The code's tests and replies are the table's.
dispatch :
    (request : List ℕ)
    → (if is_http request
        then http_response ∷ []
        else if is_rtsp request
        then rtsp_response request ∷ []
        else [])
      ≡ replies protocol request
unfolding is_http is_rtsp http_response rtsp_response
dispatch request =
    dispatched (strncmp_eq request (codes "OPTIONS")) (strncmp_eq request (codes "POST"))
      (strncmp_eq request (codes "GET")) (strncmp_eq request (codes "ANNOUNCE"))
      (strncmp_eq request (codes "SETUP")) (strncmp_eq request (codes "RECORD"))
      (strncmp_eq request (codes "PAUSE")) (strncmp_eq request (codes "FLUSH"))
      (strncmp_eq request (codes "TEARDOWN")) empty_document first_reply transport_reply third_reply

abbrev pub messages : ℤ → List (List ℕ) → List Message → List Message
messages fd [] sent = sent
messages fd (bytes ∷ rest) sent = record { fd = fd; bytes = bytes } ∷ messages fd rest sent

-- A request that is received returns 0 and is answered by one whole reply, the one that the table has for the first
-- of its nine methods with which the request begins, or by none where it begins with none of them; nothing else
-- changes. An end of the connection or an error is -1 and changes nothing.
pub handle_client_request_lem :
    (fd : ℤ) (x : ℕ) (xs : List ℕ) (s : Server)
    → (handle_client_request fd none s ≡ returns (failure, s))
      × (handle_client_request fd (some []) s ≡ returns (failure, s))
      × (handle_client_request fd (some (x ∷ xs)) s
          ≡ returns (
            success,
            record s {
              sent = messages fd (replies protocol (c_string (take 4095 (x ∷ xs)))) s.sent;
            },
          ))
unfolding handle_client_request handle_http_request handle_rtsp_request
handle_client_request_lem fd x xs s =
    let request : List ℕ = c_string (take 4095 (x ∷ xs)) in
    (refl, refl, rw (sym (dispatch request)) (ground (arith, take-rtsp_response request)))
