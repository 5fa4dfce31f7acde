-- ===== src/AirplayServer/Accept.antt =====
-- A new connection takes a free slot of the server or is closed, in the account of the descriptors.
use airplay.Base.{
  ℕ, ◌+◌, ◌≡◌, refl, Bool-cases, true, false, List, [], ◌∷◌, All, eqb_ℤ, is_negative, ℤ, pos,
  negsuc, Returns, arith, ◌⊎◌, inl, inr,
}
use airplay.Base.Kernel.{Kernel, closed-granted}
use airplay.AirplayServer.State.{Server, Client, Peer}
use airplay.AirplayServer.Process.{seat, found_slot, accept_client}
use airplay.Base.Descriptors.{count, holds}
use airplay.AirplayServer.Accounts.{held, IsSeat, Accounts}

abbrev pub IsTaken : Client → Type 0
IsTaken client = client.connected ≡ true

eqb_ℤ_self : (fd : ℤ) → eqb_ℤ fd fd ≡ true
eqb_ℤ_self (pos n) = ground arith
eqb_ℤ_self (negsuc n) = ground arith

seat-IsSeat :
    (fd : ℤ) (addr : Peer) (clients : List Client)
    → is_negative fd ≡ false
    → All IsSeat clients
    → All IsSeat (seat fd addr clients)
unfolding seat
seat-IsSeat fd addr [] v h = tt
seat-IsSeat fd addr (client ∷ clients) v h =
    ground (arith, v, h.0, h.1, seat-IsSeat fd addr clients v h.1)

-- The connection is in one slot more, which the second loop finds, or every slot was taken.
seat_cases :
    (fd : ℤ) (addr : Peer) (clients : List Client)
    → (((n : ℕ) → held n (seat fd addr clients) ≡ holds n fd + held n clients)
        × (found_slot fd (seat fd addr clients) ≡ true))
      ⊎ ((seat fd addr clients ≡ clients) × All IsTaken clients)
unfolding seat found_slot
seat_cases fd addr [] = inr (refl, tt)
seat_cases fd addr (client ∷ clients) = elim (Bool-cases client.connected) [
  | inl taken ↦ elim (seat_cases fd addr clients) [
    | inl (sums, found) ↦ inl ((λ n. ground (arith, taken, sums n)), ground (arith, taken, found))
    | inr (same, full) ↦ inr (ground (arith, taken, same), (taken, full))
  ]
  | inr free ↦ inl ((λ n. ground (arith, free)), ground (arith, free, eqb_ℤ_self fd))
]

-- Slots that are all taken do not have a descriptor that none of them holds.
found_slot-taken :
    (m : ℕ) (clients : List Client)
    → All IsTaken clients
    → held m clients ≡ 0
    → found_slot (pos m) clients ≡ false
unfolding found_slot
found_slot-taken m [] h e = refl
found_slot-taken m (client ∷ clients) h e = ground (arith, h.0, found_slot-taken m clients h.1)

-- The kernel answers a number that is no open descriptor.
abbrev pub IsFresh : ℤ → Kernel → Type 0
IsFresh fd k = (n : ℕ) → fd ≡ pos n → count n k.open_fds ≡ 0

-- What an accept leaves alone.
abbrev pub Accepted : Server → Server → Type 0
Accepted s t = t ≡ record s { clients = t.clients; kernel = t.kernel }

open_pos :
    (m : ℕ) (addr : Peer) (others : ℕ → ℕ) (bad : ℕ) (s : Server)
    → IsFresh (pos m) s.kernel
    → Accounts others bad s
    → Returns (λ r. Accounts others bad r.1 × Accepted s r.1) (accept_client (pos m) addr s)
unfolding accept_client
open_pos m addr others bad s f a = elim (seat_cases (pos m) addr s.clients) [
  | inl (sums, found) ↦ rw found (
    record {
      balanced = λ n. ground (arith, sums n, a.balanced n);
      no_bad = a.no_bad;
      seats = seat-IsSeat (pos m) addr s.clients refl a.seats;
    },
    refl,
  )
  | inr (same, full) ↦
      rw
        (
          same,
          found_slot-taken m s.clients full (omega (arith, a.balanced m, f m refl)),
          closed-granted m s.kernel,
        )
        (a, refl)
]

pub accept_client-Accounts :
    (fd : ℤ) (addr : Peer) (others : ℕ → ℕ) (bad : ℕ) (s : Server)
    → IsFresh fd s.kernel
    → Accounts others bad s
    → Returns (λ r. Accounts others bad r.1 × Accepted s r.1) (accept_client fd addr s)
unfolding accept_client
accept_client-Accounts (negsuc m) addr others bad s f a = (a, refl)
accept_client-Accounts (pos m) addr others bad s f a = open_pos m addr others bad s f a
