-- ===== src/NetworkUtils/Interfaces.antt =====
-- network_get_local_ip and network_get_mac_address of src/network_utils.c.
use airplay.Base.{
  ◌⊎◌, inl, inr, ap, All, Bool-cases, ◌∙◌, ℕ, ◌+◌, ◌-◌, ◌≡◌, ◌≤◌, ◌<◌, refl, Bool, true, false, not,
  ◌||◌, List, [], ◌∷◌, ◌++◌, Option, none, some, length, take, arith, ℤ, success, failure, ltb,
  ◌==◌, if◌then◌else◌, returns, faults, M, ret, ◌>>◌, branch, modify, codes, c_string,
  c_string-strncpy, Returns, IsString, strncmp_eq, strncpy, set,
}

-- An entry of getifaddrs: the address, if there is one, as inet_ntoa writes it, with its family
-- tested against AF_INET; and two of the flags.
pub record Interface : Type 0 where
  pub has_address : Bool
  pub is_inet : Bool
  pub is_loopback : Bool
  pub is_up : Bool
  pub ip : List ℕ

-- The three tests that skip an entry, and the one on the text of the address.
abbrev pub skipped : Interface → Bool
skipped ifa =
    not ifa.has_address
    || ((not ifa.is_inet || ifa.is_loopback) || (not ifa.is_up || strncmp_eq ifa.ip (codes "127.")))

-- The loop over the list: the address that is copied.
find_ip : List Interface → Option (List ℕ)
find_ip [] = none
find_ip (ifa ∷ rest) = if skipped ifa then find_ip rest else some ifa.ip

-- The buffer at the pointer, and the number of lists from getifaddrs that are not freed.
pub record Local : Type 0 where
  pub buffer : List ℕ
  pub lists : ℕ

-- `strncpy(ip_buffer, ip, buffer_size - 1); ip_buffer[buffer_size - 1] = '\0';`, where a buffer that is
-- shorter than `buffer_size` is written past its end.
abbrev copy_ip : ℕ → List ℕ → M Local (Unit {0})
copy_ip buffer_size ip s = elim (ltb (length s.buffer) buffer_size) [
  | true ↦ faults
  | false ↦
      returns
        (tt, record s { buffer = set (strncpy s.buffer ip (buffer_size - 1)) (buffer_size - 1) 0 })
]

abbrev free_list : M Local (Unit {0})
free_list = modify λ s. record s { lists = s.lists - 1 }

-- What follows the loop, or its `return 0`.
finish_ip : ℕ → Option (List ℕ) → M Local ℤ
finish_ip buffer_size none = do free_list; ret failure
finish_ip buffer_size (some ip) = do copy_ip buffer_size ip; free_list; ret success

search_ip : ℕ → Option (List Interface) → M Local ℤ
unfolding find_ip finish_ip
search_ip buffer_size none = ret failure
search_ip buffer_size (some entries) = do
  modify λ s. record s { lists = s.lists + 1 }
  finish_ip buffer_size (find_ip entries)

-- `interfaces` is none where getifaddrs fails.
pub network_get_local_ip : Option (List Interface) → Bool → ℕ → M Local ℤ
unfolding search_ip
network_get_local_ip interfaces ip_buffer buffer_size =
    branch (not ip_buffer || buffer_size == 0) (ret failure) (search_ip buffer_size interfaces)

abbrev pub Prior : List Interface → Type 0
Prior [] = Unit
Prior (ifa ∷ rest) = (skipped ifa ≡ true) × Prior rest

find_ip-Prior :
    (before after : List Interface) (ifa : Interface)
    → Prior before
    → skipped ifa ≡ false
    → find_ip (before ++ ifa ∷ after) ≡ some ifa.ip
unfolding find_ip
find_ip-Prior [] after ifa p k = rw k
find_ip-Prior (b ∷ before) after ifa p k = rw p.0 (find_ip-Prior before after ifa p.1 k)

find_ip-none : (entries : List Interface) → Prior entries → find_ip entries ≡ none
unfolding find_ip
find_ip-none [] p = refl
find_ip-none (ifa ∷ rest) p = rw p.0 (find_ip-none rest p.1)

-- Every list of interfaces: all are skipped, or there is a first one that is not.
abbrev pub First : List Interface → List Interface → Interface → List Interface → Type 0
First entries before ifa after =
    (entries ≡ before ++ ifa ∷ after) × Prior before × (skipped ifa ≡ false)

search_cases :
    (entries : List Interface)
    → All (λ ifa. IsString ifa.ip) entries
    → Prior entries
      ⊎ ((before : List Interface) × (ifa : Interface) × (after : List Interface) × First entries
            before ifa after
          × IsString ifa.ip)
search_cases [] h = inl tt
search_cases (ifa ∷ rest) h = elim (Bool-cases (skipped ifa)) [
  | inr usable ↦ inr ([], ifa, rest, (refl, tt, usable), h.0)
  | inl k ↦ elim (search_cases rest h.1) [
    | inl none_left ↦ inl (k, none_left)
    | inr (before, found, after, (e, p, u), text) ↦
        inr (ifa ∷ before, found, after, (ap (◌∷◌ ifa) e, (k, p), u), text)
  ]
]

reported :
    (ip : List ℕ) (buffer_size : ℕ) (s : Local)
    → IsString ip
    → 0 < buffer_size
    → buffer_size ≤ length s.buffer
    → Returns
        (λ r.
          (r.0 ≡ success)
          × (r.1.lists ≡ s.lists)
          × (c_string r.1.buffer ≡ take (buffer_size - 1) ip))
        (finish_ip buffer_size (some ip) (record s { lists = s.lists + 1 }))
unfolding finish_ip
reported ip n s i h b = ground (arith, c_string-strncpy s.buffer ip (n - 1) i (omega arith))

-- Where getifaddrs succeeds, and the buffer has the size that is told. If every interface fails one of the tests, the
-- call is -1 and nothing changes. Otherwise it returns 0, and the buffer holds the address of the first interface
-- that passes them, cut off to fit, as a C string. The list of interfaces is freed in both cases.
pub network_get_local_ip_lem :
    (entries : List Interface) (buffer_size : ℕ) (s : Local)
    → All (λ ifa. IsString ifa.ip) entries
    → 0 < buffer_size
    → buffer_size ≤ length s.buffer
    → (Prior entries
        × (network_get_local_ip (some entries) true buffer_size s ≡ returns (failure, s)))
      ⊎ ((before : List Interface) × (ifa : Interface) × (after : List Interface) × First entries
            before ifa after
          × Returns
              (λ r.
                (r.0 ≡ success)
                × (r.1.lists ≡ s.lists)
                × (c_string r.1.buffer ≡ take (buffer_size - 1) ifa.ip))
              (network_get_local_ip (some entries) true buffer_size s))
unfolding network_get_local_ip
network_get_local_ip_lem entries n s i h b = elim (search_cases entries i) [
  | inl p ↦ inl (p, ground (arith, find_ip-none entries p))
  | inr (before, ifa, after, (e, p, u), text) ↦
      let found : find_ip entries ≡ some ifa.ip =
        ap find_ip e ∙ find_ip-Prior before after ifa p u in
      let run : network_get_local_ip (some entries) true n s
          ≡ finish_ip n (some ifa.ip) (record s { lists = s.lists + 1 }) =
        ground (arith, found, h) in
      inr (before, ifa, after, (e, p, u), rw run (reported ifa.ip n s text h b))
]
