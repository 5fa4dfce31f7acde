-- ===== src/Multiroom/LongNames.antt =====
-- What becomes of a name in src/multiroom.c that does not fit into a row, and of one that does.
use airplay.Base.{
  ℕ, zero, suc, ◌≡◌, ◌≤◌, ◌<◌, refl, ap, false, some, List, [], ◌∷◌, ◌++◌, length, take, All,
  strcmp_eq, strcmp_eq_iff, Bool-cases, IsString, arith, ℤ, success, failure, Returns, Returns-mono,
  ◌⊎◌, inl, inr,
}
use airplay.Multiroom.State.{Slot, Multiroom}
use airplay.Multiroom.Rooms.{add_room, remove_room}
use airplay.Multiroom.Names.{IsRoom, IsWell, names, names_of, contains}
use airplay.Multiroom.AddRoom.{add_room_lem}
use airplay.Multiroom.RemoveRoom.{remove_room_lem}

abbrev IsShort : List ℕ → Type 0
IsShort x = length x < 32

names_of-IsShort : (slots : List Slot) (n : ℕ) → All IsRoom slots → All IsShort (names_of slots n)
unfolding names_of
names_of-IsShort slots zero h = tt
names_of-IsShort [] (suc n) h = tt
names_of-IsShort (slot ∷ slots) (suc n) h = (h.0.1, names_of-IsShort slots n h.1)

contains-long :
    (name : List ℕ) (xs : List (List ℕ))
    → 32 ≤ length name
    → All IsShort xs
    → contains name xs ≡ false
contains-long name [] h k = refl
contains-long name (x ∷ xs) h k = elim (Bool-cases (strcmp_eq x name)) [
  | inl same ↦ absurd (
      let e : x ≡ name = (strcmp_eq_iff x name).0 same in
      let l : length x ≡ length name = ap length e in omega (arith, k.0))
  | inr other ↦ ground (arith, other, contains-long name xs h k.1)
]

-- For an unlocked module with well-formed arrays and a C string of 32 bytes or more: it cannot be removed, for
-- remove_room returns -1 and changes nothing, and it can always be added once more while there are fewer than
-- eight rooms, each time as one more room with its first 31 bytes as the name.
pub long_name_lem :
    (name : List ℕ) (port : ℕ) (answer : ℤ) (s : Multiroom)
    → IsString name
    → 32 ≤ length name
    → IsWell s
    → s.locked ≡ false
    → Returns (λ r. (r.0 ≡ failure) × (r.1 ≡ s)) (remove_room (some name) s)
      × Returns
          (λ r.
            ((s.room_count ≡ 8) × (r.0 ≡ failure) × (r.1 ≡ s))
            ⊎ ((r.0 ≡ success) × (names r.1 ≡ names s ++ take 31 name ∷ [])))
          (add_room (some name) port answer s)
long_name_lem name port answer s h long w l =
    let unknown : contains name (names s) ≡ false =
      contains-long name (names s) long (names_of-IsShort s.slots s.room_count w.2) in
    (
      Returns-mono _ _ (remove_room (some name) s) (remove_room_lem name s w l)
          λ r k. ground (arith, k, unknown),
      Returns-mono _ _ (add_room (some name) port answer s) (add_room_lem name port answer s h w l)
          λ r k. ground (arith, k, unknown),
    )
