-- ===== src/Multiroom/Runs.antt =====
-- Sequences of calls and interleavings on concrete rooms.
use airplay.Base.{
  true, blocks, ℕ, ◌≡◌, refl, arith, true, false, some, List, [], ◌∷◌, ◌++◌, take, drop, replicate,
  codes, All, c_string, strcmp_eq, pos, success, failure, ◌≤◌, Returns, ◌⊎◌,
}
use airplay.Multiroom.State.{Multiroom, at_load}
use airplay.Multiroom.Rooms.{add_room, remove_room, store_room, find_room}
use airplay.Multiroom.Names.{IsWell, names, names_of, contains}
use airplay.Multiroom.Requests.{
  Request, init_request, stop_request, cleanup_request, add_request, remove_request, AllAllowed,
  IsIdle, call, run,
}
use airplay.Multiroom.Ledger.{Owns, Accounted}
use airplay.Multiroom.Ledger.Calls.{Keeps, call-Accounted, run_loaded}
use airplay.Multiroom.Lifecycle.{init, stop}
use airplay.Multiroom.LongNames.{long_name_lem}
use airplay.Multiroom.RoundTrip.{add_then_remove, remove_room-add_room}
use airplay.Multiroom.Threads.{get_room_list_among}
use airplay.Multiroom.Threads.RoomList.{IsRow, strings, get_room_list_among_lem}
use airplay.Multiroom.Examples.{kernel, house, house-IsWell, bath-IsString, ab-IsString}

house-Owns : Owns house
house-Owns = record { covers = λ n. ground arith; rest = ground arith }

-- "bath" goes, and comes back on another descriptor.
abbrev calls : List Request
calls =
    add_request (some (codes "ab")) 7002 (pos 8)
    ∷ add_request (some (codes "bath")) 7002 (pos 9)
    ∷ remove_request (some (codes "ab"))
    ∷ stop_request
    ∷ cleanup_request
    ∷ []

calls-AllAllowed : AllAllowed (init_request ∷ calls) (at_load kernel)
unfolding call init add_room remove_room stop find_room store_room c_string strcmp_eq
calls-AllAllowed = (
  tt,
  λ a p. (
    ab-IsString,
    λ b q. (
      bath-IsString,
      λ c o. (tt, λ d n. (tt, λ e m. (ground (arith, p, q, o, n, m), λ f l. tt))),
    ),
  ),
)

run_loaded_example : Returns (λ r. Keeps kernel r.1) (run (init_request ∷ calls) (at_load kernel))
run_loaded_example = run_loaded calls kernel calls-AllAllowed

call-Accounted_example :
    ((remove_request (some (codes "ab")) ≡ cleanup_request)
      × (house.is_running ≡ true)
      × (call (remove_request (some (codes "ab"))) house ≡ blocks))
    ⊎ Returns
        (Accounted (remove_request (some (codes "ab"))) house)
        (call (remove_request (some (codes "ab"))) house)
call-Accounted_example =
    call-Accounted (remove_request (some (codes "ab"))) house tt (refl, house-IsWell) house-Owns

-- 33 bytes.
abbrev long_name : List ℕ
long_name = codes "the upstairs room behind the hall"

long_name_lem_example :
    Returns (λ r. (r.0 ≡ failure) × (r.1 ≡ house)) (remove_room (some long_name) house)
    × Returns
        (λ r.
          ((house.room_count ≡ 8) × (r.0 ≡ failure) × (r.1 ≡ house))
          ⊎ ((r.0 ≡ success) × (names r.1 ≡ names house ++ take 31 long_name ∷ [])))
        (add_room (some long_name) 7002 (pos 9) house)
long_name_lem_example =
    long_name_lem long_name 7002 (pos 9) house (ground arith) (omega arith) house-IsWell refl

bath_new : contains (codes "bath") (names house) ≡ false
unfolding names_of c_string strcmp_eq
bath_new = refl

remove_room-add_room_example :
    Returns
      (λ r.
        (r.0.0 ≡ success)
        × (r.0.1 ≡ success)
        × (names r.1 ≡ names house)
        × IsWell r.1
        × (r.1.locked ≡ false))
      (add_then_remove (codes "bath") 7002 (pos 9) house)
remove_room-add_room_example =
    remove_room-add_room (codes "bath") 7002 (pos 9) house bath-IsString (λ e. absurd (cc e))
      (omega arith) house-IsWell refl (omega arith) bath_new

-- Another thread adds a room before the count is read.
abbrev others : List Request
others = add_request (some (codes "bath")) 7002 (pos 9) ∷ []

others-AllAllowed : AllAllowed others house
others-AllAllowed = (bath-IsString, λ r p. tt)

abbrev rows : List (List ℕ)
rows = replicate 8 (replicate 32 0)

rows-IsRow : All IsRow rows
rows-IsRow = ground arith

get_room_list_among_lem_example :
    Returns
      (λ r.
        (written : List (List ℕ)) × (r.0.1 ≡ some written)
        × (strings (take 1 written) ≡ names house)
        × (drop 1 written ≡ drop 1 rows)
        × (r.0.0 ≡ pos r.1.room_count)
        × (r.1.room_count ≤ 8)
        × IsIdle r.1)
      (get_room_list_among others rows house)
get_room_list_among_lem_example =
    get_room_list_among_lem others rows house others-AllAllowed (refl, house-IsWell) rows-IsRow refl

-- Two rooms are reported, of which one is written.
two_reported :
    Returns
      (λ r. (r.0.0 ≡ pos 2) × (names house ≡ codes "ab" ∷ []))
      (get_room_list_among others rows house)
unfolding get_room_list_among run call add_room find_room store_room c_string strcmp_eq names_of
two_reported = (refl, refl)
