-- ===== src/AirplayServer/Requests.antt =====
-- handle_client_request and the responses of src/airplay_server.c.
use airplay.Base.{
  ℕ, Bool, ◌||◌, Option, none, some, List, [], ◌∷◌, ◌++◌, take, c_string, strncmp_eq, codes, line,
  ℤ, success, failure, M, ret, ◌>>◌, modify, branch, if◌then◌else◌,
}
use airplay.AirplayServer.State.{Server}

abbrev buffer_size : ℕ
buffer_size = 4096

unfoldable pub http_response : List ℕ
http_response =
    line "HTTP/1.1 200 OK"
    ++ line "Content-Type: text/x-apple-plist+xml"
    ++ line "Content-Length: 0"
    ++ line ""

-- The lines of a response to the request with a sequence number, before the last.
abbrev rtsp_head : List ℕ → List ℕ
rtsp_head sequence = line "RTSP/1.0 200 OK" ++ sequence ++ line "Server: AirPlay/220.68"

unfoldable pub rtsp_response : List ℕ → List ℕ
rtsp_response request =
    if strncmp_eq request (codes "ANNOUNCE")
    then rtsp_head (line "CSeq: 1") ++ line ""
    else if strncmp_eq request (codes "SETUP")
    then rtsp_head (line "CSeq: 2")
      ++ line "Transport: RTP/AVP/UDP;unicast;interleaved=0-1"
      ++ line ""
    else if strncmp_eq request (codes "RECORD")
    then rtsp_head (line "CSeq: 3") ++ line ""
    else rtsp_head (line "CSeq: 1") ++ line ""

abbrev send : ℤ → List ℕ → M Server (Unit {0})
send fd bytes = modify λ s. record s { sent = record { fd = fd; bytes = bytes } ∷ s.sent }

unfoldable pub handle_http_request : ℤ → List ℕ → M Server ℤ
handle_http_request fd request = do send fd http_response; ret success

-- snprintf keeps 1023 bytes of the response.
unfoldable pub handle_rtsp_request : ℤ → List ℕ → M Server ℤ
handle_rtsp_request fd request = do send fd (take 1023 (rtsp_response request)); ret success

unfoldable pub is_http : List ℕ → Bool
is_http request =
    strncmp_eq request (codes "OPTIONS")
    || strncmp_eq request (codes "POST")
    || strncmp_eq request (codes "GET")

unfoldable pub is_rtsp : List ℕ → Bool
is_rtsp request =
    strncmp_eq request (codes "ANNOUNCE")
    || strncmp_eq request (codes "SETUP")
    || strncmp_eq request (codes "RECORD")
    || strncmp_eq request (codes "PAUSE")
    || strncmp_eq request (codes "FLUSH")
    || strncmp_eq request (codes "TEARDOWN")

-- What recv brings is an argument: `none` or no bytes for an answer of at most 0. It reads 4095 bytes
-- at most, and the request is the string that they and the NUL behind them hold.
unfoldable pub handle_client_request : ℤ → Option (List ℕ) → M Server ℤ
handle_client_request fd none = ret failure
handle_client_request fd (some []) = ret failure
handle_client_request fd (some (x ∷ xs)) =
    let request = c_string (take 4095 (x ∷ xs)) in
    branch (is_http request) (handle_http_request fd request)
      (branch (is_rtsp request) (handle_rtsp_request fd request) (ret success))
