-- ===== src/Multiroom/Examples.antt =====
-- The rooms on concrete calls and answers of the kernel.
use airplay.Base.{
  ◌≡◌, refl, arith, true, false, some, List, [], ◌∷◌, ◌++◌, take, replicate, codes, All, IsString,
  c_string, pos, success, failure, Returns, ◌⊎◌,
}
use airplay.Base.Kernel.{Kernel}
use airplay.Multiroom.State.{Multiroom, Slot, at_load, cleared}
use airplay.Multiroom.Rooms.{add_room, remove_room}
use airplay.Multiroom.Names.{IsRoom, IsWell, names, contains, erase}
use airplay.Multiroom.AddRoom.{add_room_lem}
use airplay.Multiroom.RemoveRoom.{remove_room_lem}
use airplay.Multiroom.Requests.{Request, init_request, add_request, remove_request}

abbrev pub kernel : Kernel
kernel = record { open_fds = 0 ∷ 1 ∷ 2 ∷ 7 ∷ []; bad_closes = 0 }

-- "ab" and its NUL in an array.
abbrev kitchen : Slot
kitchen = record cleared { room = 97 ∷ 98 ∷ replicate 30 0; socket = pos 7 }

-- One room, enabled, not running.
abbrev pub house : Multiroom
house = record (at_load kernel) {
  is_enabled = true;
  slots = kitchen ∷ replicate 7 cleared;
  room_count = 1;
}

abbrev pub playing : Multiroom
playing = record house { is_running = true; sync_callback = some 5 }

kitchen-IsRoom : IsRoom kitchen
unfolding c_string
kitchen-IsRoom = (refl, omega arith)

cleared-IsRoom : IsRoom cleared
unfolding c_string
cleared-IsRoom = (refl, omega arith)

slots-IsRoom : All IsRoom house.slots
slots-IsRoom = (
  kitchen-IsRoom,
  (
    cleared-IsRoom,
    (
      cleared-IsRoom,
      (cleared-IsRoom, (cleared-IsRoom, (cleared-IsRoom, (cleared-IsRoom, (cleared-IsRoom, tt))))),
    ),
  ),
)

pub house-IsWell : IsWell house
house-IsWell = (refl, omega arith, slots-IsRoom)

pub ab-IsString : IsString (codes "ab")
ab-IsString = (omega arith, (omega arith, tt))

pub bath-IsString : IsString (codes "bath")
bath-IsString = (omega arith, (omega arith, (omega arith, (omega arith, tt))))

add_room_lem_example :
    Returns
      (λ r.
        IsWell r.1
        × (r.1.locked ≡ false)
        × (((r.0 ≡ failure)
              × (r.1 ≡ house)
              × ((house.room_count ≡ 8)
                  ⊎ (contains (codes "bath") (names house) ≡ true)
                  ⊎ (codes "bath" ≡ [])))
            ⊎ ((r.0 ≡ success)
                × (names r.1 ≡ names house ++ take 31 (codes "bath") ∷ [])
                × (contains (codes "bath") (names house) ≡ false))))
      (add_room (some (codes "bath")) 7002 (pos 9) house)
add_room_lem_example =
    add_room_lem (codes "bath") 7002 (pos 9) house bath-IsString house-IsWell refl

remove_room_lem_example :
    Returns
      (λ r.
        IsWell r.1
        × (r.1.locked ≡ false)
        × (((r.0 ≡ failure) × (r.1 ≡ house) × (contains (codes "ab") (names house) ≡ false))
            ⊎ ((r.0 ≡ success)
                × (names r.1 ≡ erase (codes "ab") (names house))
                × (contains (codes "ab") (names house) ≡ true))))
      (remove_room (some (codes "ab")) house)
remove_room_lem_example = remove_room_lem (codes "ab") house house-IsWell refl

abbrev requests : List Request
requests =
    add_request (some (codes "bath")) 7002 (pos 9)
    ∷ remove_request (some (codes "ab"))
    ∷ init_request
    ∷ []
