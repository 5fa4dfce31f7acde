-- ===== src/Multiroom/Accounts.antt =====
-- The descriptors that the rooms of src/multiroom.c hold, and that every function accounts for them.
use native.Mathlib.Numerals.{unary_clauses}
use airplay.Base.{
  ℕ, zero, suc, ◌+◌, ◌≡◌, ◌≤◌, ◌<◌, refl, ◌∙◌, true, some, List, [], ◌∷◌, length, get_elem?, set,
  All, arith, ℤ, pos, negsuc, is_negative, if◌then◌else◌,
}
use airplay.Base.Kernel.{Kernel, closed}
use airplay.Base.Descriptors.{count, holds, holds_self, count-closed}
use airplay.Multiroom.State.{Slot, cleared, close_slots}
use airplay.Multiroom.Rooms.{find_room, shift, shift_from, socket_at}
use airplay.Multiroom.Lifecycle.{IsClosed}

-- How many slots hold a descriptor.
abbrev pub held : ℕ → List Slot → ℕ
held n [] = 0
held n (slot ∷ slots) = holds n slot.socket + held n slots

-- No slot from an index on has a socket.
abbrev pub Rest : ℕ → List Slot → Type 0
Rest zero slots = All IsClosed slots
Rest (suc n) [] = Unit
Rest (suc n) (slot ∷ slots) = Rest n slots

pub holds-closed : (n : ℕ) (fd : ℤ) → is_negative fd ≡ true → holds n fd ≡ 0
holds-closed n (pos m) h = cc
holds-closed n (negsuc m) h = ground arith

-- What a removal does to the sockets.
held-shift :
    (n : ℕ) (slot : Slot) (slots : List Slot) (m : ℕ)
    → m ≤ length slots
    → held n (set (shift (slot ∷ slots) m) m cleared) + holds n slot.socket ≡ held n (slot ∷ slots)
unfolding shift
held-shift n slot slots zero h = ground arith
held-shift n slot [] (suc m) h = elim h [ ]
held-shift n slot (next ∷ slots) (suc m) h = ground (arith, held-shift n next slots m (omega arith))

pub held-shift_from :
    (n i m : ℕ) (slots : List Slot)
    → i ≤ m
    → m < length slots
    → held n (set (shift_from i slots m) m cleared) + holds n (socket_at slots i) ≡ held n slots
unfolding shift_from
held-shift_from n i m [] h k = elim k [ ]
held-shift_from n zero m (slot ∷ slots) h k = held-shift n slot slots m (omega arith)
held-shift_from n (suc i) zero (slot ∷ slots) h k = elim h [ ]
held-shift_from n (suc i) (suc m) (slot ∷ slots) h k =
    ground (arith, held-shift_from n i m slots (omega arith) (omega arith))

Rest-nil : (m : ℕ) → Rest m []
Rest-nil zero = tt
Rest-nil (suc m) = tt

shift-Rest :
    (m : ℕ) (slots : List Slot) → Rest (suc m) slots → Rest m (set (shift slots m) m cleared)
unfolding shift
shift-Rest zero [] h = tt
shift-Rest zero (slot ∷ slots) h = (refl, h)
shift-Rest (suc m) [] h = tt
shift-Rest (suc m) (slot ∷ []) h = Rest-nil m
shift-Rest (suc m) (slot ∷ next ∷ slots) h = shift-Rest m (next ∷ slots) h

pub shift_from-Rest :
    (i m : ℕ) (slots : List Slot)
    → i ≤ m
    → Rest (suc m) slots
    → Rest m (set (shift_from i slots m) m cleared)
unfolding shift_from
shift_from-Rest zero m slots h k = shift-Rest m slots k
shift_from-Rest (suc i) zero slots h k = elim h [ ]
shift_from-Rest (suc i) (suc m) [] h k = tt
shift_from-Rest (suc i) (suc m) (slot ∷ slots) h k =
    simp unary_clauses (shift_from-Rest i m slots (omega arith) k)

-- What a new room does to them.
pub held-set :
    (n m : ℕ) (slots : List Slot) (slot new : Slot)
    → get_elem? slots m ≡ some slot
    → held n (set slots m new) + holds n slot.socket ≡ held n slots + holds n new.socket
held-set n m [] slot new h = cc
held-set n zero (x ∷ slots) slot new h = ground arith
held-set n (suc m) (x ∷ slots) slot new h = ground (arith, held-set n m slots slot new h)

pub set-Rest :
    (m : ℕ) (slots : List Slot) (new : Slot) → Rest m slots → Rest (suc m) (set slots m new)
set-Rest zero [] new h = tt
set-Rest zero (slot ∷ slots) new h = h.1
set-Rest (suc m) [] new h = tt
set-Rest (suc m) (slot ∷ slots) new h = set-Rest m slots new h

pub get-Rest :
    (m : ℕ) (slots : List Slot) (slot : Slot)
    → Rest m slots
    → get_elem? slots m ≡ some slot
    → IsClosed slot
get-Rest m [] slot h e = cc
get-Rest zero (x ∷ slots) slot h e = ground (arith, h.0)
get-Rest (suc m) (x ∷ slots) slot h e = get-Rest m slots slot h e

pub find_room-lt :
    (name : List ℕ) (slots : List Slot) (n i : ℕ) → find_room name slots n ≡ some i → i < n
unfolding find_room
find_room-lt name slots zero i h = cc
find_room-lt name [] (suc n) i h = cc
find_room-lt name (slot ∷ slots) (suc n) zero h = omega arith
find_room-lt name (slot ∷ slots) (suc n) (suc i) h = ground (arith, find_room-lt name slots n i)

-- A socket that a slot holds is open.
abbrev pub Covers : List Slot → Kernel → Type 0
Covers slots k = (n : ℕ) → held n slots ≤ count n k.open_fds

-- A slot is closed, if it has a socket.
abbrev pub after_slot : Slot → Kernel → Kernel
after_slot slot k = if is_negative slot.socket then k else closed slot.socket k

pub after_slot-count :
    (n : ℕ) (slot : Slot) (k : Kernel)
    → ((m : ℕ) → holds m slot.socket ≤ count m k.open_fds)
    → (count n (after_slot slot k).open_fds + holds n slot.socket ≡ count n k.open_fds)
      × ((after_slot slot k).bad_closes ≡ k.bad_closes)
after_slot-count n slot k h = socket_count slot.socket h
  where
    socket_count :
        (fd : ℤ)
        → ((m : ℕ) → holds m fd ≤ count m k.open_fds)
        → (count n (if is_negative fd then k else closed fd k).open_fds + holds n fd
            ≡ count n k.open_fds)
          × ((if is_negative fd then k else closed fd k).bad_closes ≡ k.bad_closes)
    socket_count (pos m) h =
        let open_m : 1 ≤ count m k.open_fds = omega (arith, h m, holds_self m) in
        let (counted, same) = count-closed m n k open_m in
        (ground (arith, counted), ground (arith, same))
    socket_count (negsuc m) h = (ground arith, refl)

-- All the sockets are closed, each once.
pub close_slots-count :
    (n : ℕ) (slots : List Slot) (k : Kernel)
    → Covers slots k
    → (count n (close_slots slots k).1.open_fds + held n slots ≡ count n k.open_fds)
      × ((close_slots slots k).1.bad_closes ≡ k.bad_closes)
unfolding close_slots
close_slots-count n [] k h = ground arith
close_slots-count n (slot ∷ slots) k h =
    let first : (m : ℕ) → holds m slot.socket ≤ count m k.open_fds = λ m. omega (arith, h m) in
    let (c, b) = after_slot-count n slot k first in
    let (c', b') =
      close_slots-count n slots (after_slot slot k)
        (λ m. omega (arith, h m, after_slot-count m slot k first)) in
    (omega (arith, c, c'), b' ∙ b)
