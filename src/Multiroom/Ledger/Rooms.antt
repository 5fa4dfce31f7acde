-- ===== src/Multiroom/Ledger/Rooms.antt =====
-- The accounts of multiroom_add_room and multiroom_remove_room.
use native.Mathlib.Numerals.{unary_clauses}
use airplay.Base.{
  ℕ, zero, suc, ◌+◌, ◌-◌, ◌≡◌, ◌≤◌, ◌<◌, refl, sym, ◌∙◌, ◌⊎◌, inl, inr, false, Option, none, some,
  List, [], ◌∷◌, length, get_elem?, set, Option-cases, arith, ℤ, pos, negsuc, success, returns,
  Returns,
}
use airplay.Base.Kernel.{granted}
use airplay.Base.Descriptors.{count, holds, count-granted}
use airplay.Multiroom.State.{Slot, Multiroom, room_added, room_removed, cleared}
use airplay.Multiroom.Lifecycle.{IsClosed}
use airplay.Multiroom.Rooms.{
  add_room, remove_room, store_room, erase_room, find_room, filled, shift_from,
}
use airplay.Multiroom.Names.{IsWell, All-get}
use airplay.Multiroom.Requests.{add_request, remove_request}
use airplay.Multiroom.Accounts.{
  held, Rest, held-shift_from, shift_from-Rest, held-set, set-Rest, get-Rest, find_room-lt,
  holds-closed, after_slot, after_slot-count,
}
use airplay.Multiroom.Ledger.{Owns, Accounted, granted_bad}

-- A room that is stored in a slot without a socket.
filled-holds :
    (n : ℕ) (name : List ℕ) (port : ℕ) (fd : ℤ) (slot : Slot)
    → IsClosed slot
    → holds n (filled name port fd slot).socket ≡ holds n fd
filled-holds n name port (pos m) slot h = refl
filled-holds n name port (negsuc m) slot h =
    holds-closed n slot.socket h ∙ sym (holds-closed n (negsuc m) refl)

stored-held :
    (n : ℕ) (name : List ℕ) (port : ℕ) (fd : ℤ) (slots : List Slot) (m : ℕ) (slot : Slot)
    → Rest m slots
    → get_elem? slots m ≡ some slot
    → held n (set slots m (filled name port fd slot)) ≡ held n slots + holds n fd
stored-held n name port fd slots m slot h e =
    let none_held : IsClosed slot = get-Rest m slots slot h e in
    omega (
      arith,
      held-set n m slots slot (filled name port fd slot) e,
      holds-closed n slot.socket none_held,
      filled-holds n name port fd slot none_held,
    )

pub Nat_cases : (n : ℕ) → (8 ≤ n) ⊎ (n < 8)
Nat_cases n = ground arith

pub add-Accounted :
    (name : Option (List ℕ)) (port : ℕ) (fd : ℤ) (s : Multiroom)
    → IsWell s
    → s.locked ≡ false
    → Owns s
    → Returns (Accounted (add_request name port fd) s) (add_room name port fd s)
unfolding add_room store_room
add-Accounted none port fd s w l o = ((λ n. omega arith), refl, o.rest)
add-Accounted (some []) port fd s w l o = ((λ n. omega arith), refl, o.rest)
add-Accounted (some (c ∷ cs)) port fd s w l o = elim (Nat_cases s.room_count) [
  | inl full ↦ ground (arith, l, full, o.rest)
  | inr free ↦ elim (Option-cases (find_room (c ∷ cs) s.slots s.room_count)) [
    | inr (i, e) ↦ ground (arith, l, e, free, o.rest)
    | inl e ↦
        let (slot, g, room) = All-get s.slots s.room_count w.2 (omega (arith, w.0)) in
        let run_add : add_room (some (c ∷ cs)) port fd s
            ≡ returns (
              success,
              record s {
                slots = set s.slots s.room_count (filled (c ∷ cs) port fd slot);
                kernel = granted fd s.kernel;
                room_count = s.room_count + 1;
                calls = elim s.room_added_callback [
                  | none ↦ s.calls
                  | some f ↦ room_added f (c ∷ cs) ∷ s.calls
                ];
                locked = false;
              },
            ) =
          ground (arith, l, e, free, g) in
        rw run_add (
          (λ n. omega (
            arith,
            count-granted fd n s.kernel,
            stored-held n (c ∷ cs) port fd s.slots s.room_count slot o.rest g,
          )),
          granted_bad fd s.kernel,
          simp unary_clauses (set-Rest s.room_count s.slots (filled (c ∷ cs) port fd slot) o.rest),
        )
  ]
]

at_index :
    (slots : List Slot) (i : ℕ) → i < length slots → (slot : Slot) × (get_elem? slots i ≡ some slot)
at_index [] i h = elim h [ ]
at_index (slot ∷ slots) zero h = (slot, refl)
at_index (slot ∷ slots) (suc i) h = at_index slots i (omega arith)

held-get :
    (n i : ℕ) (slots : List Slot) (slot : Slot)
    → get_elem? slots i ≡ some slot
    → holds n slot.socket ≤ held n slots
held-get n i [] slot e = cc
held-get n zero (x ∷ slots) slot e = ground arith
held-get n (suc i) (x ∷ slots) slot e = omega (arith, held-get n i slots slot e)

removed-held :
    (n i m : ℕ) (slots : List Slot) (slot : Slot)
    → i ≤ m
    → m < length slots
    → get_elem? slots i ≡ some slot
    → held n (set (shift_from i slots m) m cleared) + holds n slot.socket ≡ held n slots
removed-held n i m slots slot h k g = ground (arith, held-shift_from n i m slots h k, g)

last_Rest : (n : ℕ) (slots : List Slot) → 1 ≤ n → Rest n slots → Rest (suc (n - 1)) slots
last_Rest zero slots h r = elim h [ ]
last_Rest (suc n) slots h r = simp unary_clauses r

pub remove-Accounted :
    (name : Option (List ℕ)) (s : Multiroom)
    → IsWell s
    → s.locked ≡ false
    → Owns s
    → Returns (Accounted (remove_request name) s) (remove_room name s)
unfolding remove_room erase_room
remove-Accounted none s w l o = ((λ n. omega arith), refl, o.rest)
remove-Accounted (some name) s w l o = elim (Option-cases (find_room name s.slots s.room_count)) [
  | inl e ↦ ground (arith, l, e, o.rest)
  | inr (i, e) ↦
      let m : ℕ = s.room_count - 1 in
      let below : i < s.room_count = find_room-lt name s.slots s.room_count i e in
      let (slot, g) = at_index s.slots i (omega (arith, w.0, w.1)) in
      let run_remove : remove_room (some name) s
          ≡ returns (
            success,
            record s {
              kernel = after_slot slot s.kernel;
              slots = set (shift_from i s.slots m) m cleared;
              room_count = m;
              calls = elim s.room_removed_callback [
                | none ↦ s.calls
                | some f ↦ room_removed f name ∷ s.calls
              ];
              locked = false;
            },
          ) =
        ground (arith, l, e, g) in
      let first : (n : ℕ) → holds n slot.socket ≤ count n s.kernel.open_fds =
        λ n. omega (arith, o.covers n, held-get n i s.slots slot g) in
      rw run_remove (
        (λ n. omega (
          arith,
          after_slot-count n slot s.kernel first,
          removed-held n i m s.slots slot (omega arith) (omega (arith, w.0, w.1)) g,
        )),
        (after_slot-count 0 slot s.kernel first).1,
        shift_from-Rest i m s.slots (omega arith)
            (last_Rest s.room_count s.slots (omega arith) o.rest),
      )
]
