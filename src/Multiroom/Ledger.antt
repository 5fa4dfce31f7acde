-- ===== src/Multiroom/Ledger.antt =====
-- What it is for a call of src/multiroom.h to account for the descriptors.
mod Lives
mod Rooms
pub mod Calls
pub mod Cleanup
use native.Mathlib.Numerals.{unary_clauses}
use airplay.Base.{
  ℕ, zero, suc, ◌+◌, ◌-◌, ◌≡◌, ◌≤◌, ◌<◌, refl, sym, ap, ◌∙◌, ◌⊎◌, inl, inr, Bool, true, false, not,
  ◌&&◌, Option, none, some, List, [], ◌∷◌, length, get_elem?, set, All, IsString, Option-cases,
  Bool-cases, arith, ℤ, pos, negsuc, is_negative, success, failure, returns, if◌then◌else◌, Returns,
  Returns-mono, Returns-eq, Returns-both, Returns->>=, ◌>>=◌,
}
use airplay.Base.Kernel.{Kernel, granted, closed}
use airplay.Base.Descriptors.{count, holds, holds_self, count-closed, count-granted}
use airplay.Multiroom.State.{
  Slot, Multiroom, room_added, room_removed, cleared, close_slots, close_sockets,
}
use airplay.Multiroom.Lifecycle.{
  init, start, stop, Bound, start-Bound, IsClosed, close_slots-IsClosed,
}
use airplay.Multiroom.Rooms.{
  add_room, remove_room, store_room, erase_room, find_room, filled, shift_from, socket_at,
}
use airplay.Multiroom.Sync.{sync_audio}
use airplay.Multiroom.Names.{IsWell, All-get}
use airplay.Multiroom.Requests.{
  Request, init_request, stop_request, config_request, start_request, add_request, remove_request,
  sync_request, delay_request, added_request, removed_request, synced_request, call, run, IsIdle,
  call-IsIdle,
}
use airplay.Multiroom.Accounts.{
  held, Rest, Covers, held-shift_from, shift_from-Rest, held-set, set-Rest, get-Rest, find_room-lt,
  close_slots-count, holds-closed, after_slot, after_slot-count,
}

-- Each socket of a slot is open, and only rooms have one.
pub record Owns (s : Multiroom) : Type 0 where
  pub covers : Covers s.slots s.kernel
  pub rest : Rest s.room_count s.slots

-- What a call leaves open that no slot holds afterwards: the rooms' sockets in multiroom_init, and the socket
-- of a multiroom_start that takes effect.
abbrev pub dropped : ℕ → Request → Multiroom → Multiroom → ℕ
dropped n init_request s t = held n s.slots
dropped n (start_request fd b) s t = if t.is_running && not s.is_running then holds n fd else 0
dropped n c s t = 0

-- Number by number, what is open and what the slots hold change alike but for what is dropped.
abbrev pub Accounted : Request → Multiroom → ℤ × Multiroom → Type 0
Accounted c s r =
    ((n : ℕ)
      → count n r.1.kernel.open_fds + held n s.slots
        ≡ count n s.kernel.open_fds + (held n r.1.slots + dropped n c s r.1))
    × (r.1.kernel.bad_closes ≡ s.kernel.bad_closes)
    × Rest r.1.room_count r.1.slots

pub All-Rest : (n : ℕ) (slots : List Slot) → All IsClosed slots → Rest n slots
All-Rest zero slots h = h
All-Rest (suc n) [] h = tt
All-Rest (suc n) (slot ∷ slots) h = All-Rest n slots h.1

pub held-closed : (n : ℕ) (slots : List Slot) → All IsClosed slots → held n slots ≡ 0
held-closed n [] h = refl
held-closed n (slot ∷ slots) h =
    omega (arith, holds-closed n slot.socket h.0, held-closed n slots h.1)

pub granted_bad : (fd : ℤ) (k : Kernel) → (granted fd k).bad_closes ≡ k.bad_closes
granted_bad (pos m) k = refl
granted_bad (negsuc m) k = refl
