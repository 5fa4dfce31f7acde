-- ===== src/Multiroom/Rooms.antt =====
-- multiroom_add_room, _remove_room and _get_room_list, and the names that they keep.
use airplay.Base.{
  ℕ, zero, suc, ◌+◌, ◌-◌, Bool, true, false, Option, none, some, List, [], ◌∷◌, get_elem?, set, leb,
  strncpy, strcpy, strcmp_eq, c_string, ℤ, pos, success, failure, is_negative, returns, faults, M,
  ret, ◌>>=◌, ◌>>◌, get, modify, branch, if◌then◌else◌,
}
use airplay.Base.Kernel.{granted, closed}
use airplay.Multiroom.State.{
  Slot, room_added, room_removed, Multiroom, max_rooms, cleared, lock, unlock,
}

-- The first of the first `n` indices whose name is `name`.
unfoldable pub find_room : List ℕ → List Slot → ℕ → Option ℕ
find_room name slots zero = none
find_room name [] (suc n) = none
find_room name (slot ∷ slots) (suc n) =
    if strcmp_eq (c_string slot.room) name
    then some 0
    else elim (find_room name slots n) [ none ↦ none | some i ↦ some (suc i) ]

-- An index that a room is written to, with the answer of socket. A socket that fails leaves the
-- fields `socket` and `address` as they were.
abbrev pub filled : List ℕ → ℕ → ℤ → Slot → Slot
filled name port answer slot = record {
  room = set (strncpy slot.room name 31) 31 0;
  socket = if is_negative answer then slot.socket else answer;
  address = if is_negative answer then slot.address else record { sin_family = 2; sin_port = port };
}

-- A write behind the arrays is undefined.
unfoldable pub store_room : List ℕ → ℕ → ℤ → M Multiroom (Unit {0})
store_room name port answer s = elim (get_elem? s.slots s.room_count) [
  | none ↦ faults
  | some slot ↦ returns (
    tt,
    record s {
      slots = set s.slots s.room_count (filled name port answer slot);
      kernel = granted answer s.kernel;
      room_count = s.room_count + 1;
    },
  )
]

abbrev notify_added : List ℕ → M Multiroom (Unit {0})
notify_added name = modify λ s. record s {
  calls = elim s.room_added_callback [ none ↦ s.calls | some f ↦ room_added f name ∷ s.calls ];
}

abbrev notify_removed : List ℕ → M Multiroom (Unit {0})
notify_removed name = modify λ s. record s {
  calls = elim s.room_removed_callback [ none ↦ s.calls | some f ↦ room_removed f name ∷ s.calls ];
}

abbrev is_found : Option ℕ → Bool
is_found none = false
is_found (some i) = true

-- The answer of socket is an argument; `none` is the null pointer.
unfoldable pub add_room : Option (List ℕ) → ℕ → ℤ → M Multiroom ℤ
add_room none port answer = ret failure
add_room (some []) port answer = ret failure
add_room (some (c ∷ cs)) port answer = do
  lock
  s ← get
  branch (leb max_rooms s.room_count) (do unlock; ret failure)
      (branch (is_found (find_room (c ∷ cs) s.slots s.room_count)) (do unlock; ret failure)
        do store_room (c ∷ cs) port answer; notify_added (c ∷ cs); unlock; ret success)

-- The bytes behind the copied NUL stay.
abbrev pub moved : Slot → Slot → Slot
moved slot next = record {
  room = strcpy slot.room (c_string next.room);
  socket = next.socket;
  address = next.address;
}

-- `n` rounds of the loop that shifts the rooms, from the first of `slots`. Each round reads an index
-- that no round before it has written.
unfoldable pub shift : List Slot → ℕ → List Slot
shift slots zero = slots
shift [] (suc n) = []
shift (slot ∷ []) (suc n) = slot ∷ []
shift (slot ∷ next ∷ slots) (suc n) = moved slot next ∷ shift (next ∷ slots) n

-- The same from index `i` on, with `n` the index of the last room.
unfoldable pub shift_from : ℕ → List Slot → ℕ → List Slot
shift_from zero slots n = shift slots n
shift_from (suc i) [] n = []
shift_from (suc i) (slot ∷ slots) n = slot ∷ shift_from i slots (n - 1)

abbrev pub socket_at : List Slot → ℕ → ℤ
socket_at slots i = elim (get_elem? slots i) [ none ↦ failure | some slot ↦ slot.socket ]

unfoldable pub erase_room : ℕ → M Multiroom (Unit {0})
erase_room i = modify λ s. record s {
  kernel =
      (if is_negative (socket_at s.slots i)
        then s.kernel
        else closed (socket_at s.slots i) s.kernel);
  slots = set (shift_from i s.slots (s.room_count - 1)) (s.room_count - 1) cleared;
  room_count = s.room_count - 1;
}

unfoldable pub remove_room : Option (List ℕ) → M Multiroom ℤ
remove_room none = ret failure
remove_room (some name) = do
  lock
  s ← get
  (λ t. elim (find_room name s.slots s.room_count) [
    | none ↦ (do unlock; ret failure) t
    | some i ↦ (do erase_room i; notify_removed name; unlock; ret success) t
  ])

-- The rows of the caller's array, of which the first `n` are written.
unfoldable pub copy_names : List (List ℕ) → List Slot → ℕ → List (List ℕ)
copy_names rows slots zero = rows
copy_names [] slots (suc n) = []
copy_names (row ∷ rows) [] (suc n) = row ∷ rows
copy_names (row ∷ rows) (slot ∷ slots) (suc n) =
    set (strncpy row (c_string slot.room) 31) 31 0 ∷ copy_names rows slots n

-- The returned count is read after the lock is given back.
unfoldable pub get_room_list : Option (List (List ℕ)) → M Multiroom (ℤ × Option (List (List ℕ)))
get_room_list none = ret (failure, none)
get_room_list (some rows) = do
  lock
  s ← get
  unlock
  t ← get
  ret (pos t.room_count, some (copy_names rows s.slots s.room_count))
