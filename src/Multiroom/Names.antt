-- ===== src/Multiroom/Names.antt =====
-- The names of the rooms as a list of strings, which is what the arrays of src/multiroom.c stand for.
use airplay.Base.{
  c_string-strcpy, length-strcpy, ℕ, zero, suc, ◌-◌, ◌≡◌, ◌≤◌, ◌<◌, refl, ap, Bool, true, false,
  Option, none, some, List, [], ◌∷◌, ◌++◌, length, get_elem?, set, All, strcmp_eq, c_string,
  IsString, if◌then◌else◌, arith,
}
use airplay.Multiroom.State.{Slot, Multiroom}
use airplay.Multiroom.Rooms.{find_room, moved, shift, shift_from}

-- An array of 32 bytes that holds a NUL.
abbrev pub IsRoom : Slot → Type 0
IsRoom slot = (length slot.room ≡ 32) × (length (c_string slot.room) < 32)

-- The arrays have eight entries, of which the first `room_count` are rooms.
abbrev pub IsWell : Multiroom → Type 0
IsWell s = (length s.slots ≡ 8) × (s.room_count ≤ 8) × All IsRoom s.slots

-- The names of the first `n` entries.
unfoldable pub names_of : List Slot → ℕ → List (List ℕ)
names_of slots zero = []
names_of [] (suc n) = []
names_of (slot ∷ slots) (suc n) = c_string slot.room ∷ names_of slots n

abbrev pub names : Multiroom → List (List ℕ)
names s = names_of s.slots s.room_count

-- The specification of a search and of a removal on a list of strings.
abbrev pub contains : List ℕ → List (List ℕ) → Bool
contains name [] = false
contains name (x ∷ xs) = if strcmp_eq x name then true else contains name xs

abbrev pub erase : List ℕ → List (List ℕ) → List (List ℕ)
erase name [] = []
erase name (x ∷ xs) = if strcmp_eq x name then xs else x ∷ erase name xs

abbrev pub is_some : Option ℕ → Bool
is_some none = false
is_some (some i) = true

pub find_room-contains :
    (name : List ℕ) (slots : List Slot) (n : ℕ)
    → is_some (find_room name slots n) ≡ contains name (names_of slots n)
unfolding find_room names_of
find_room-contains name slots zero = refl
find_room-contains name [] (suc n) = refl
find_room-contains name (slot ∷ slots) (suc n) = ground (arith, find_room-contains name slots n)

pub c_string-IsString : (xs : List ℕ) → IsString (c_string xs)
unfolding c_string
c_string-IsString [] = tt
c_string-IsString (x ∷ xs) = ground (arith, c_string-IsString xs)

-- A room that is moved keeps its name.
moved_name :
    (slot next : Slot)
    → IsRoom slot
    → IsRoom next
    → c_string (moved slot next).room ≡ c_string next.room
moved_name slot next h k =
    c_string-strcpy slot.room (c_string next.room) (c_string-IsString next.room)
      (omega (arith, h.0, k.1))

moved-IsRoom : (slot next : Slot) → IsRoom slot → IsRoom next → IsRoom (moved slot next)
moved-IsRoom slot next h k = (
  omega (arith, h.0, length-strcpy slot.room (c_string next.room)),
  rw (moved_name slot next h k) (k.1),
)

pub shift-IsRoom : (slots : List Slot) (n : ℕ) → All IsRoom slots → All IsRoom (shift slots n)
unfolding shift
shift-IsRoom slots zero h = h
shift-IsRoom [] (suc n) h = h
shift-IsRoom (slot ∷ []) (suc n) h = h
shift-IsRoom (slot ∷ next ∷ slots) (suc n) h =
    (moved-IsRoom slot next h.0 h.1.0, shift-IsRoom (next ∷ slots) n h.1)

pub shift_from-IsRoom :
    (i : ℕ) (slots : List Slot) (n : ℕ) → All IsRoom slots → All IsRoom (shift_from i slots n)
unfolding shift_from
shift_from-IsRoom zero slots n h = shift-IsRoom slots n h
shift_from-IsRoom (suc i) [] n h = h
shift_from-IsRoom (suc i) (slot ∷ slots) n h = (h.0, shift_from-IsRoom i slots (n - 1) h.1)

length-shift : (slots : List Slot) (n : ℕ) → length (shift slots n) ≡ length slots
unfolding shift
length-shift slots zero = refl
length-shift [] (suc n) = refl
length-shift (slot ∷ []) (suc n) = refl
length-shift (slot ∷ next ∷ slots) (suc n) = ap suc (length-shift (next ∷ slots) n)

pub length-shift_from :
    (i : ℕ) (slots : List Slot) (n : ℕ) → length (shift_from i slots n) ≡ length slots
unfolding shift_from
length-shift_from zero slots n = length-shift slots n
length-shift_from (suc i) [] n = refl
length-shift_from (suc i) (slot ∷ slots) n = ap suc (length-shift_from i slots (n - 1))

shift_names :
    (slot : Slot) (slots : List Slot) (n : ℕ)
    → All IsRoom (slot ∷ slots)
    → n ≤ length slots
    → names_of (shift (slot ∷ slots) n) n ≡ names_of slots n
unfolding names_of shift
shift_names slot slots zero h k = refl
shift_names slot [] (suc n) h k = elim k [ ]
shift_names slot (next ∷ slots) (suc n) h k =
    rw (moved_name slot next h.0 h.1.0)
      (ap (◌∷◌ (c_string next.room)) (shift_names next slots n h.1 (omega arith)))

-- The shift from the index of a name erases the name.
pub shift_from_names :
    (name : List ℕ) (slots : List Slot) (n i : ℕ)
    → All IsRoom slots
    → suc n ≤ length slots
    → find_room name slots (suc n) ≡ some i
    → names_of (shift_from i slots n) n ≡ erase name (names_of slots (suc n))
unfolding find_room names_of shift_from
shift_from_names name [] n i h k f = elim k [ ]
shift_from_names name (slot ∷ slots) n zero h k f =
    ground (arith, shift_names slot slots n h (omega arith))
shift_from_names name (slot ∷ slots) zero (suc i) h k f = ground arith
shift_from_names name (slot ∷ slots) (suc n) (suc i) h k f =
    ground (arith, shift_from_names name slots n i h.1 (omega arith))

-- A write behind the first `n` entries.
pub names_of-set :
    (slots : List Slot) (n : ℕ) (slot : Slot) → names_of (set slots n slot) n ≡ names_of slots n
unfolding names_of
names_of-set slots zero slot = refl
names_of-set [] (suc n) slot = refl
names_of-set (x ∷ slots) (suc n) slot = ap (◌∷◌ (c_string x.room)) (names_of-set slots n slot)

-- A write right behind them, counted in.
pub names_of_added :
    (slots : List Slot) (n : ℕ) (slot : Slot)
    → n < length slots
    → names_of (set slots n slot) (suc n) ≡ names_of slots n ++ c_string slot.room ∷ []
unfolding names_of
names_of_added [] n slot h = elim h [ ]
names_of_added (x ∷ slots) zero slot h = refl
names_of_added (x ∷ slots) (suc n) slot h =
    ap (◌∷◌ (c_string x.room)) (names_of_added slots n slot (omega arith))

pub All-set :
    (slots : List Slot) (n : ℕ) (slot : Slot)
    → All IsRoom slots
    → IsRoom slot
    → All IsRoom (set slots n slot)
All-set [] n slot h k = h
All-set (x ∷ slots) zero slot h k = (k, h.1)
All-set (x ∷ slots) (suc n) slot h k = (h.0, All-set slots n slot h.1 k)

pub All-get :
    (slots : List Slot) (n : ℕ)
    → All IsRoom slots
    → n < length slots
    → (slot : Slot) × (get_elem? slots n ≡ some slot) × IsRoom slot
All-get [] n h k = elim k [ ]
All-get (x ∷ slots) zero h k = (x, refl, h.0)
All-get (x ∷ slots) (suc n) h k = All-get slots n h.1 (omega arith)
