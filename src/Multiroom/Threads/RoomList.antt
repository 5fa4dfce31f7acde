-- ===== src/Multiroom/Threads/RoomList.antt =====
-- multiroom_get_room_list among the calls of other threads.
use airplay.Base.{
  ℕ, zero, suc, ◌≡◌, ◌≤◌, refl, ap, subst, ◌∙◌, false, some, List, [], ◌∷◌, length, take, take_all,
  drop, set, All, strncpy, c_string, c_string-strncpy, arith, pos, returns, Returns, Returns-eq,
}
use airplay.Multiroom.State.{Slot, Multiroom}
use airplay.Multiroom.Rooms.{copy_names}
use airplay.Multiroom.Names.{IsRoom, names, names_of, c_string-IsString}
use airplay.Multiroom.Requests.{Request, run, AllAllowed, IsIdle, run-IsIdle}
use airplay.Multiroom.Threads.{get_room_list_among}

-- A row of the caller's array.
abbrev pub IsRow : List ℕ → Type 0
IsRow row = length row ≡ 32

abbrev pub strings : List (List ℕ) → List (List ℕ)
strings [] = []
strings (row ∷ rows) = c_string row ∷ strings rows

row_name :
    (row : List ℕ) (slot : Slot)
    → IsRow row
    → IsRoom slot
    → c_string (set (strncpy row (c_string slot.room) 31) 31 0) ≡ c_string slot.room
row_name row slot h k =
    c_string-strncpy row (c_string slot.room) 31 (c_string-IsString slot.room) (omega (arith, h))
    ∙ take_all 31 (c_string slot.room) (omega (arith, k.1))

-- The first rows hold the names, and the others stay.
copy_names_lem :
    (rows : List (List ℕ)) (slots : List Slot) (n : ℕ)
    → All IsRow rows
    → All IsRoom slots
    → n ≤ length rows
    → n ≤ length slots
    → (strings (take n (copy_names rows slots n)) ≡ names_of slots n)
      × (drop n (copy_names rows slots n) ≡ drop n rows)
unfolding copy_names names_of
copy_names_lem rows slots zero h k l m = (refl, refl)
copy_names_lem [] slots (suc n) h k l m = elim l [ ]
copy_names_lem (row ∷ rows) [] (suc n) h k l m = elim m [ ]
copy_names_lem (row ∷ rows) (slot ∷ slots) (suc n) h k l m =
    let (named, kept) = copy_names_lem rows slots n h.1 k.1 (omega arith) (omega arith) in
    (ground (arith, named, row_name row slot h.0 k.0), kept)

length-names_of : (slots : List Slot) (n : ℕ) → n ≤ length slots → length (names_of slots n) ≡ n
unfolding names_of
length-names_of slots zero h = refl
length-names_of [] (suc n) h = elim h [ ]
length-names_of (slot ∷ slots) (suc n) h = ap suc (length-names_of slots n (omega arith))

freed : (s : Multiroom) → s.locked ≡ false → s ≡ record s { locked = false }
freed s h = ap (λ b. record s { locked = b }) h

-- On an unlocked module with well-formed arrays and an array of eight rows, with any calls of other threads between
-- the unlock and the return, in which names are C strings and multiroom_cleanup comes only while the module does not
-- run: the call returns. The first rows hold the names that the rooms had under the mutex, one for
-- each room, and the rows behind them are the caller's. The number that is returned is the number of rooms after
-- the calls of the other threads, at most eight, whatever the number of rows that were written.
pub get_room_list_among_lem :
    (others : List Request) (rows : List (List ℕ)) (s : Multiroom)
    → AllAllowed others s
    → IsIdle s
    → All IsRow rows
    → length rows ≡ 8
    → Returns
        (λ r.
          (written : List (List ℕ)) × (r.0.1 ≡ some written)
          × (strings (take s.room_count written) ≡ names s)
          × (drop s.room_count written ≡ drop s.room_count rows)
          × (r.0.0 ≡ pos r.1.room_count)
          × (r.1.room_count ≤ 8)
          × IsIdle r.1)
        (get_room_list_among others rows s)
unfolding get_room_list_among
get_room_list_among_lem others rows s h w k l =
    let free : Multiroom = record s { locked = false } in
    let ((statuses, t), e, (counted, idle)) =
      Returns-eq _ (run others free)
        (run-IsIdle others free (subst (AllAllowed others) (freed s w.0) h) (refl, w.1)) in
    let (named, kept) =
      copy_names_lem rows s.slots s.room_count k w.1.2 (omega (arith, l, w.1.1))
        (omega (arith, w.1.0, w.1.1)) in
    let run_list : get_room_list_among others rows s
        ≡ returns ((pos t.room_count, some (copy_names rows s.slots s.room_count)), t) =
      ground (arith, w.0, e) in
    rw run_list (copy_names rows s.slots s.room_count, refl, named, kept, refl, idle.1.1, idle)
