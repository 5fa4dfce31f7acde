-- ===== src/Multiroom/RemoveRoom.antt =====
-- multiroom_remove_room on every branch, against the list of names.
use airplay.Base.{
  ℕ, zero, suc, ◌-◌, ◌≡◌, ◌≤◌, refl, true, false, Option, none, some, List, length, set, All,
  c_string, length-set, arith, success, failure, Returns, ◌⊎◌, inl, inr,
}
use airplay.Multiroom.State.{Slot, Multiroom, cleared}
use airplay.Multiroom.Rooms.{remove_room, erase_room, shift_from, find_room}
use airplay.Multiroom.Names.{
  IsRoom, IsWell, names, names_of, contains, erase, find_room-contains, names_of-set, All-set,
  shift_from_names, shift_from-IsRoom, length-shift_from,
}

cleared-IsRoom : IsRoom cleared
unfolding c_string
cleared-IsRoom = (refl, omega arith)

erased_names :
    (name : List ℕ) (slots : List Slot) (n i : ℕ)
    → All IsRoom slots
    → n ≤ length slots
    → find_room name slots n ≡ some i
    → names_of (set (shift_from i slots (n - 1)) (n - 1) cleared) (n - 1)
      ≡ erase name (names_of slots n)
unfolding find_room
erased_names name slots zero i h k f = ground arith
erased_names name slots (suc n) i h k f =
    ground
      (arith, names_of-set (shift_from i slots n) n cleared, shift_from_names name slots n i h k f)

erased-IsWell :
    (slots : List Slot) (n i : ℕ)
    → length slots ≡ 8
    → All IsRoom slots
    → (length (set (shift_from i slots n) n cleared) ≡ 8)
      × All IsRoom (set (shift_from i slots n) n cleared)
erased-IsWell slots n i e h = (
  omega (arith, e, length-set (shift_from i slots n) n cleared, length-shift_from i slots n),
  All-set (shift_from i slots n) n cleared (shift_from-IsRoom i slots n h) cleared-IsRoom,
)

Option_cases : (o : Option ℕ) → (o ≡ none) ⊎ ((i : ℕ) × (o ≡ some i))
Option_cases none = inl refl
Option_cases (some i) = inr (i, refl)

-- For an unlocked module with well-formed arrays: a name that no room has is -1 and nothing changes. For
-- a name that a room has the call returns 0, and the names lose the first room of that name and keep
-- their order. The arrays stay well formed and the mutex free on both branches.
pub remove_room_lem :
    (name : List ℕ) (s : Multiroom)
    → IsWell s
    → s.locked ≡ false
    → Returns
        (λ r.
          IsWell r.1
          × (r.1.locked ≡ false)
          × (((r.0 ≡ failure) × (r.1 ≡ s) × (contains name (names s) ≡ false))
              ⊎ ((r.0 ≡ success)
                  × (names r.1 ≡ erase name (names s))
                  × (contains name (names s) ≡ true))))
        (remove_room (some name) s)
unfolding remove_room erase_room
remove_room_lem name s w l = elim (Option_cases (find_room name s.slots s.room_count)) [
  | inl e ↦ ground (arith, e, find_room-contains name s.slots s.room_count)
  | inr (i, e) ↦ ground (
    arith,
    e,
    find_room-contains name s.slots s.room_count,
    erased_names name s.slots s.room_count i w.2 (omega (arith, w.0, w.1)) e,
    erased-IsWell s.slots (s.room_count - 1) i w.0 w.2,
  )
]
