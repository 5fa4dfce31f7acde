-- ===== src/NetworkUtils/Discovery.antt =====
-- airplay_handle_discovery_request of src/network_utils.c, and the answer that it gives. The state is
-- the block at `response`.
use airplay.Base.{
  ◌⊎◌, inl, inr, ℕ, ◌+◌, ◌≡◌, ◌≤◌, ◌<◌, refl, Bool, true, false, not, ◌||◌, List, ◌∷◌, ◌++◌, Option,
  none, some, length, drop, arith, ℤ, success, failure, ltb, returns, faults, M, ret, ◌>>=◌, ◌>>◌,
  branch, line, c_string, c_string-terminated, Returns, ltb-false, lt→ltb,
}

abbrev pub discovery_response : List ℕ
discovery_response =
    line "HTTP/1.1 200 OK"
    ++ line "Content-Type: text/x-apple-plist+xml"
    ++ line "Content-Length: 0"
    ++ line ""

-- strcpy writes the string and its NUL, undefined where the block is too short.
unfoldable pub copy_string : List ℕ → M (List ℕ) (Unit {0})
copy_string s block = elim (ltb (length s) (length block)) [
  | true ↦ returns (tt, s ++ 0 ∷ drop (length s + 1) block)
  | false ↦ faults
]

-- `response_length` is what the pointer leads to, none where it is NULL; the result holds what it
-- leads to afterwards. The request is looked at only for being there.
pub airplay_handle_discovery_request : Bool → Bool → Option ℕ → M (List ℕ) (ℤ × Option ℕ)
airplay_handle_discovery_request request response none = ret (failure, none)
airplay_handle_discovery_request request response (some capacity) =
    branch (not request || not response) (ret (failure, some capacity)) do
      let resp_len = length discovery_response
      branch (ltb capacity resp_len) (ret (failure, some capacity))
          do copy_string discovery_response; ret (success, some resp_len)

response_size : length discovery_response ≡ 76
response_size = refl

copy_fits :
    (block : List ℕ)
    → length discovery_response < length block
    → copy_string discovery_response block
      ≡ returns (tt, discovery_response ++ 0 ∷ drop (length discovery_response + 1) block)
unfolding copy_string
copy_fits block h = rw (lt→ltb (length discovery_response) (length block) h, copy_string)

copy_overflows :
    (block : List ℕ)
    → length block ≡ length discovery_response
    → copy_string discovery_response block ≡ faults
unfolding copy_string
copy_overflows block h = rw (h, copy_string)

discovery_request_answered :
    (capacity : ℕ) (block : List ℕ)
    → length discovery_response ≤ capacity
    → length discovery_response < length block
    → Returns
        (λ r.
          (r.0 ≡ (success, some (length discovery_response))) × (c_string r.1 ≡ discovery_response))
        (airplay_handle_discovery_request true true (some capacity) block)
unfolding airplay_handle_discovery_request
discovery_request_answered capacity block h k =
    rw (ltb-false capacity (length discovery_response) h) (
      rw (copy_fits block k, ◌>>=◌)
        (
          refl,
          c_string-terminated discovery_response (drop (length discovery_response + 1) block)
              (omega arith),
        ))

discovery_request_overflows :
    (block : List ℕ)
    → length block ≡ length discovery_response
    → airplay_handle_discovery_request true true (some (length block)) block ≡ faults
unfolding airplay_handle_discovery_request
discovery_request_overflows block h = rw (h, ◌>>=◌) (rw (copy_overflows block h, ◌>>=◌) refl)

discovery_request_short :
    (capacity : ℕ) (block : List ℕ)
    → capacity < length discovery_response
    → airplay_handle_discovery_request true true (some capacity) block
      ≡ returns ((failure, some capacity), block)
unfolding airplay_handle_discovery_request
discovery_request_short capacity block h = rw (lt→ltb capacity (length discovery_response) h) refl

compare_sizes : (m n : ℕ) → (m < n) ⊎ (m ≡ n) ⊎ (n < m)
compare_sizes m n = ground arith

-- A request whose length pointer leads to the size of the block at the response. A block that is shorter than the
-- response is refused with -1, and nothing changes. A longer one is answered with 0 and the response's length, and
-- holds the response as a C string. A block that is exactly as long as the response passes the length check, and
-- strcpy writes the NUL one byte past its end.
pub airplay_handle_discovery_request_lem :
    (block : List ℕ)
    → let o = airplay_handle_discovery_request true true (some (length block)) block in
      ((length block < length discovery_response)
        × (o ≡ returns ((failure, some (length block)), block)))
      ⊎ ((length block ≡ length discovery_response) × (o ≡ faults))
      ⊎ ((length discovery_response < length block)
          × Returns
              (λ r.
                (r.0 ≡ (success, some (length discovery_response)))
                × (c_string r.1 ≡ discovery_response))
              o)
airplay_handle_discovery_request_lem block =
    elim (compare_sizes (length block) (length discovery_response)) [
      | inl h ↦ inl (h, discovery_request_short (length block) block h)
      | inr (inl h) ↦ inr (inl (h, discovery_request_overflows block h))
      | inr (inr h) ↦ inr (inr (h, discovery_request_answered (length block) block (omega arith) h))
    ]
