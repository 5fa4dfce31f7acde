-- ===== src/Multiroom/AddRoom.antt =====
-- multiroom_add_room on every branch, against the list of names.
use airplay.Base.{
  ℕ, ◌+◌, ◌≡◌, ◌≤◌, ◌<◌, refl, true, false, some, List, [], ◌∷◌, ◌++◌, length, set, take, strncpy,
  c_string, c_string-strncpy, length-strncpy, length-set, length-take, IsString, arith, ℤ, success,
  failure, returns, Returns, inl, inr, ◌⊎◌,
}
use airplay.Base.Kernel.{granted}
use airplay.Multiroom.State.{Slot, Multiroom}
use airplay.Multiroom.Rooms.{add_room, store_room, filled}
use airplay.Multiroom.Names.{
  IsRoom, IsWell, names, names_of, contains, find_room-contains, names_of_added, All-set, All-get,
}

filled_name :
    (name : List ℕ) (port : ℕ) (answer : ℤ) (slot : Slot)
    → IsString name
    → IsRoom slot
    → c_string (filled name port answer slot).room ≡ take 31 name
filled_name name port answer slot h k = c_string-strncpy slot.room name 31 h (omega (arith, k.0))

filled-IsRoom :
    (name : List ℕ) (port : ℕ) (answer : ℤ) (slot : Slot)
    → IsString name
    → IsRoom slot
    → IsRoom (filled name port answer slot)
filled-IsRoom name port answer slot h k = (
  omega (arith, k.0, length-set (strncpy slot.room name 31) 31 0, length-strncpy slot.room name 31),
  rw (filled_name name port answer slot h k) (omega (arith, length-take 31 name)),
)

-- What a new room is, for the list of names.
abbrev Added : List ℕ → Multiroom → Multiroom → Type 0
Added name s t =
    (names t ≡ names s ++ take 31 name ∷ [])
    × (t.room_count ≡ s.room_count + 1)
    × IsWell t
    × (t.locked ≡ s.locked)

added_names :
    (slots : List Slot) (n : ℕ) (new : Slot) (name : List ℕ)
    → c_string new.room ≡ take 31 name
    → n < length slots
    → names_of (set slots n new) (n + 1) ≡ names_of slots n ++ take 31 name ∷ []
added_names slots n new name e h = ground (arith, names_of_added slots n new h)

store_room-Added :
    (name : List ℕ) (port : ℕ) (answer : ℤ) (s : Multiroom)
    → IsString name
    → IsWell s
    → s.room_count < 8
    → (t : Multiroom) × (store_room name port answer s ≡ returns (tt, t)) × Added name s t
unfolding store_room
store_room-Added name port answer s h w k =
    let (slot, e, room) = All-get s.slots s.room_count w.2 (omega (arith, w.0)) in
    let new = filled name port answer slot in
    (
      record s {
        slots = set s.slots s.room_count new;
        kernel = granted answer s.kernel;
        room_count = s.room_count + 1;
      },
      rw (e, store_room) refl,
      (
        added_names s.slots s.room_count new name (filled_name name port answer slot h room)
            (omega (arith, w.0)),
        refl,
        (
          omega (arith, w.0, length-set s.slots s.room_count new),
          omega arith,
          All-set s.slots s.room_count new w.2 (filled-IsRoom name port answer slot h room),
        ),
        refl,
      ),
    )

Nat_cases : (n : ℕ) → (8 ≤ n) ⊎ (n < 8)
Nat_cases n = ground arith

-- For an unlocked module with well-formed arrays and a name that is a C string: the call is refused with
-- -1 and changes nothing, and there are eight rooms, a room has the name or the name is empty; or it
-- returns 0, no room had the name, and the first 31 bytes of it are a new name behind the others. The
-- arrays stay well formed and the mutex free on every branch.
pub add_room_lem :
    (name : List ℕ) (port : ℕ) (answer : ℤ) (s : Multiroom)
    → IsString name
    → IsWell s
    → s.locked ≡ false
    → Returns
        (λ r.
          IsWell r.1
          × (r.1.locked ≡ false)
          × (((r.0 ≡ failure)
                × (r.1 ≡ s)
                × ((s.room_count ≡ 8) ⊎ (contains name (names s) ≡ true) ⊎ (name ≡ [])))
              ⊎ ((r.0 ≡ success)
                  × (names r.1 ≡ names s ++ take 31 name ∷ [])
                  × (contains name (names s) ≡ false))))
        (add_room (some name) port answer s)
unfolding add_room
add_room_lem [] port answer s h w l = ground arith
add_room_lem (c ∷ cs) port answer s h w l = elim (Nat_cases s.room_count) [
  | inl full ↦ ground (arith, full)
  | inr k ↦
      let (t, e, added) =
        (store_room-Added (c ∷ cs) port answer (record s { locked = true }) h w k) in
      ground (arith, find_room-contains (c ∷ cs) s.slots s.room_count, e, added)
]
