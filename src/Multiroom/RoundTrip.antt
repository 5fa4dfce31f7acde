-- ===== src/Multiroom/RoundTrip.antt =====
-- multiroom_remove_room undoes multiroom_add_room.
use airplay.Base.{
  ℕ, ◌≡◌, ◌≢◌, ◌≤◌, ◌<◌, refl, true, false, some, List, [], ◌∷◌, ◌++◌, length, take, take_all,
  strcmp_eq, strcmp_eq_iff, Bool-cases, IsString, arith, ℤ, success, Returns, Returns-mono,
  Returns-eq, M, ret, ◌>>=◌, inl, inr,
}
use airplay.Multiroom.State.{Multiroom}
use airplay.Multiroom.Rooms.{add_room, remove_room}
use airplay.Multiroom.Names.{IsWell, names, contains, erase}
use airplay.Multiroom.AddRoom.{add_room_lem}
use airplay.Multiroom.RemoveRoom.{remove_room_lem}

-- A name at the end of a list.
contains_last : (name : List ℕ) (xs : List (List ℕ)) → contains name (xs ++ name ∷ []) ≡ true
contains_last name [] = ground (arith, (strcmp_eq_iff name name).1 refl)
contains_last name (x ∷ xs) = ground (arith, contains_last name xs)

erase_last :
    (name : List ℕ) (xs : List (List ℕ))
    → contains name xs ≡ false
    → erase name (xs ++ name ∷ []) ≡ xs
erase_last name [] h = ground (arith, (strcmp_eq_iff name name).1 refl)
erase_last name (x ∷ xs) h = elim (Bool-cases (strcmp_eq x name)) [
  | inl same ↦ absurd (ground (arith, same, h))
  | inr other ↦ ground (arith, other, erase_last name xs)
]

-- A client that adds a room and removes it, with the two statuses.
abbrev pub add_then_remove : List ℕ → ℕ → ℤ → M Multiroom (ℤ × ℤ)
add_then_remove name port answer = do
  added ← add_room (some name) port answer
  removed ← remove_room (some name)
  ret (added, removed)

-- For an unlocked module with well-formed arrays and fewer than eight rooms, and a C string of 1 to 31 bytes that no
-- room has as its name: multiroom_add_room and then multiroom_remove_room of the name both return 0, and leave the names
-- of the rooms as they were, in their order.
pub remove_room-add_room :
    (name : List ℕ) (port : ℕ) (answer : ℤ) (s : Multiroom)
    → IsString name
    → name ≢ []
    → length name ≤ 31
    → IsWell s
    → s.locked ≡ false
    → s.room_count < 8
    → contains name (names s) ≡ false
    → Returns
        (λ r.
          (r.0.0 ≡ success)
          × (r.0.1 ≡ success)
          × (names r.1 ≡ names s)
          × IsWell r.1
          × (r.1.locked ≡ false))
        (add_then_remove name port answer s)
remove_room-add_room name port answer s h one short w l room new =
    let whole : take 31 name ≡ name = take_all 31 name short in
    let ((added, t), e, (well, free, ok, more)) =
      Returns-eq
        (λ r.
          IsWell r.1 × (r.1.locked ≡ false) × (r.0 ≡ success) × (names r.1 ≡ names s ++ name ∷ []))
        (add_room (some name) port answer s)
        (Returns-mono _ _ (add_room (some name) port answer s)
          (add_room_lem name port answer s h w l) λ r k. ground (arith, k, whole)) in
    let ((removed, v), f, k) =
      Returns-eq (λ r. (r.0 ≡ success) × (names r.1 ≡ names s) × IsWell r.1 × (r.1.locked ≡ false))
        (remove_room (some name) t)
        (Returns-mono _ _ (remove_room (some name) t) (remove_room_lem name t well free) λ r k.
          ground (arith, k, more, contains_last name (names s), erase_last name (names s) new)) in
    rw (e, ◌>>=◌, f) (ok, k.0, k.1, k.2, k.3)
