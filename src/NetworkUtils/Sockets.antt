-- ===== src/NetworkUtils/Sockets.antt =====
-- network_is_port_available, network_create_udp_socket, network_create_tcp_socket and
-- network_close_socket of src/network_utils.c. The answers of socket and bind are arguments; that of
-- setsockopt is ignored by the code.
use airplay.Base.{
  ℕ, ◌≡◌, ◌≢◌, refl, true, false, not, arith, ℤ, pos, negsuc, success, failure, is_negative, eqb_ℤ,
  if◌then◌else◌, returns, M, ret, ◌>>=◌, ◌>>◌, modify, branch, Returns, ◌⊎◌, inl, inr,
}
use airplay.Base.Kernel.{Kernel, granted, closed, closed-granted}

abbrev pub socket : ℤ → M Kernel ℤ
socket answer k = returns (answer, granted answer k)

abbrev pub close : ℤ → M Kernel (Unit {0})
close fd = modify (closed fd)

unfoldable pub network_is_port_available : ℤ → ℤ → M Kernel ℤ
network_is_port_available socket_answer bind_answer = do
  sock ← socket socket_answer
  branch (is_negative sock) (ret failure)
      do close sock; ret (if eqb_ℤ bind_answer success then pos 1 else pos 0)

unfoldable pub network_create_udp_socket : ℤ → ℤ → M Kernel ℤ
network_create_udp_socket socket_answer bind_answer = do
  sock ← socket socket_answer
  branch (is_negative sock) (ret failure)
      (branch (is_negative bind_answer) (do close sock; ret failure) (ret sock))

unfoldable pub network_create_tcp_socket : ℤ → ℤ → M Kernel ℤ
network_create_tcp_socket socket_answer bind_answer = do
  sock ← socket socket_answer
  branch (is_negative sock) (ret failure)
      (branch (is_negative bind_answer) (do close sock; ret failure) (ret sock))

-- close answers 0 for an open descriptor.
unfoldable pub network_close_socket : ℤ → ℤ → M Kernel ℤ
network_close_socket close_answer socket_fd =
    branch (not (is_negative socket_fd)) (do close socket_fd; ret close_answer) (ret success)

-- The descriptor that is returned is open and new; where there is none, nothing has changed.
abbrev pub Creates : Kernel → ℤ × Kernel → Type 0
Creates k r =
    ((fd : ℕ) × (r.0 ≡ pos fd) × (r.1 ≡ granted (pos fd) k)) ⊎ ((r.0 ≡ failure) × (r.1 ≡ k))

-- A UDP and a TCP socket, whatever socket and bind answer: the result is the descriptor that socket gave,
-- and it is open; or it is -1 and the open descriptors are what they were.
pub create_sockets-Creates :
    (s b : ℤ) (k : Kernel)
    → Returns (Creates k) (network_create_udp_socket s b k)
      × Returns (Creates k) (network_create_tcp_socket s b k)
unfolding network_create_udp_socket network_create_tcp_socket
create_sockets-Creates (negsuc n) b k = (inr (refl, refl), inr (refl, refl))
create_sockets-Creates (pos n) (pos m) k = (inl (n, refl, refl), inl (n, refl, refl))
create_sockets-Creates (pos n) (negsuc m) k =
    (inr (refl, closed-granted n k), inr (refl, closed-granted n k))

-- The answer on a port, whatever socket and bind answer, leaves the open descriptors as they were. It is
-- 1 where there is a socket and bind returns 0, -1 where there is no socket, and 0 where there is one
-- and bind does not return 0.
pub network_is_port_available_lem :
    (s b : ℤ) (k : Kernel)
    → Returns
        (λ r.
          (r.1 ≡ k)
          × (((r.0 ≡ pos 1) × (is_negative s ≡ false) × (b ≡ success))
              ⊎ ((r.0 ≡ failure) × (is_negative s ≡ true))
              ⊎ ((r.0 ≡ pos 0) × (is_negative s ≡ false) × (b ≢ success))))
        (network_is_port_available s b k)
unfolding network_is_port_available
network_is_port_available_lem s b k = ground arith
