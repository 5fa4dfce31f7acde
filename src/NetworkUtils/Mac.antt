-- ===== src/NetworkUtils/Mac.antt =====
-- network_get_mac_address of src/network_utils.c.
use airplay.Base.{
  ℕ, ◌+◌, ◌-◌, ◌/◌, ◌%◌, ◌≡◌, ◌≤◌, Bool, true, false, not, ◌||◌, List, [], ◌∷◌, ◌++◌, Option, none,
  some, length, drop, set, replicate, arith, ℤ, pos, success, failure, is_negative, ltb,
  if◌then◌else◌, returns, faults, M, ret, ◌>>◌, branch, modify, codes, c_string, strncpy, Returns,
}
use airplay.Base.Kernel.{Kernel, granted, closed, closed-granted}

-- The process's descriptors, and the buffer at the pointer.
pub record Query : Type 0 where
  pub kernel : Kernel
  pub buffer : List ℕ

-- %02x of a byte.
abbrev hex_digit : ℕ → ℕ
hex_digit d = if ltb d 10 then 48 + d else 87 + d

abbrev hex : ℕ → List ℕ
hex byte = hex_digit (byte / 16) ∷ hex_digit (byte % 16) ∷ []

-- An address of six bytes, as ifr_hwaddr.sa_data holds it.
pub record Mac : Type 0 where
  pub byte₀ : ℕ
  pub byte₁ : ℕ
  pub byte₂ : ℕ
  pub byte₃ : ℕ
  pub byte₄ : ℕ
  pub byte₅ : ℕ

-- "%02x:%02x:%02x:%02x:%02x:%02x"
unfoldable pub mac_text : Mac → List ℕ
mac_text m =
    hex m.byte₀
    ++ b':'
      ∷ (hex m.byte₁
          ++ b':'
            ∷ (hex m.byte₂ ++ b':' ∷ (hex m.byte₃ ++ b':' ∷ (hex m.byte₄ ++ b':' ∷ hex m.byte₅))))

-- snprintf(mac_buffer, buffer_size, …) for a text that fits the size.
abbrev print_mac : ℕ → Mac → M Query (Unit {0})
print_mac buffer_size m s = elim (ltb (length s.buffer) buffer_size) [
  | true ↦ faults
  | false ↦ returns (tt, record s { buffer = mac_text m ++ 0 ∷ drop 18 s.buffer })
]

abbrev close : ℤ → M Query (Unit {0})
close fd = modify λ s. record s { kernel = closed fd s.kernel }

-- IFNAMSIZ
abbrev ifnamsiz : ℕ
ifnamsiz = 16

abbrev interfaces : List (List ℕ)
interfaces = codes "eth0" ∷ codes "wlan0" ∷ codes "br0" ∷ codes "lan0" ∷ []

-- The loop over the names that are left. `ifr_name` is the array of the request, and `ioctl` answers
-- for the name that it holds.
ask : (List ℕ → Option Mac) → ℕ → ℤ → List ℕ → List (List ℕ) → M Query ℤ
ask ioctl buffer_size sock ifr_name [] = do close sock; ret failure
ask ioctl buffer_size sock ifr_name (name ∷ names) =
    let named = set (strncpy ifr_name name (ifnamsiz - 1)) (ifnamsiz - 1) 0 in
    let rest = ask ioctl buffer_size sock named names in
    elim (ioctl (c_string named)) [
      | some m ↦ do print_mac buffer_size m; close sock; ret success
      | none ↦ rest
    ]

unfoldable pub network_get_mac_address : ℤ → (List ℕ → Option Mac) → Bool → ℕ → M Query ℤ
unfolding ask c_string strncpy
network_get_mac_address socket_answer ioctl mac_buffer buffer_size =
    branch (not mac_buffer || ltb buffer_size 18) (ret failure) do
      modify λ s. record s { kernel = granted socket_answer s.kernel }
      branch (is_negative socket_answer) (ret failure)
          (ask ioctl buffer_size socket_answer (replicate ifnamsiz 0) interfaces)

abbrev or_else : Option Mac → Option Mac → Option Mac
or_else none b = b
or_else (some m) b = some m

-- The first of the four names that has an address.
abbrev pub first_mac : (List ℕ → Option Mac) → Option Mac
first_mac ioctl =
    or_else (ioctl (codes "eth0"))
      (or_else (ioctl (codes "wlan0")) (or_else (ioctl (codes "br0")) (ioctl (codes "lan0"))))

abbrev pub Reports : Option Mac → Query → ℤ × Query → Type 0
Reports none s r = (r.0 ≡ failure) × (r.1 ≡ s)
Reports (some m) s r =
    (r.0 ≡ success) × (r.1.kernel ≡ s.kernel) × (r.1.buffer ≡ mac_text m ++ 0 ∷ drop 18 s.buffer)

-- With a socket and a buffer of at least 18 bytes: the call returns 0 with the text of the first of
-- eth0, wlan0, br0 and lan0 that has an address and a NUL in the buffer, or -1 with the buffer as it
-- was where none has one. No descriptor is left open or lost.
pub network_get_mac_address_lem :
    (fd : ℕ) (ioctl : List ℕ → Option Mac) (buffer_size : ℕ) (s : Query)
    → 18 ≤ buffer_size
    → buffer_size ≤ length s.buffer
    → Returns
        (Reports (first_mac ioctl) s)
        (network_get_mac_address (pos fd) ioctl true buffer_size s)
unfolding network_get_mac_address
network_get_mac_address_lem fd ioctl n s h k = ground (arith, closed-granted fd s.kernel)
