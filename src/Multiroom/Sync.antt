-- ===== src/Multiroom/Sync.antt =====
-- multiroom_sync_audio: a datagram to each room that has a socket.
use airplay.Base.{
  ℕ, zero, suc, ◌≡◌, refl, ap, true, false, not, Option, none, some, List, [], ◌∷◌, ◌++◌, All, ℤ,
  pos, is_negative, success, failure, returns, M, ret, ◌>>=◌, ◌>>◌, get, modify, branch,
  if◌then◌else◌, Returns, arith,
}
use airplay.Multiroom.State.{
  Slot, Datagram, Multiroom, synced, lock, unlock, close_sockets, close_slots,
}
use airplay.Multiroom.Lifecycle.{start, stop, IsClosed, close_slots-IsClosed}

-- The loop over the first `n` rooms. What sendto answers is not read.
unfoldable pub send_to_rooms : List Slot → ℕ → List ℕ → List Datagram → List Datagram
send_to_rooms slots zero payload sent = sent
send_to_rooms [] (suc n) payload sent = sent
send_to_rooms (slot ∷ slots) (suc n) payload sent = send_to_rooms slots n payload (
    if is_negative slot.socket
    then sent
    else record { socket = slot.socket; address = slot.address; payload = payload } ∷ sent)

-- `payload` is the `length` bytes of the block, `none` the null pointer. `is_running` is read before the
-- lock is taken.
unfoldable pub sync_audio : Option (List ℕ) → ℕ → M Multiroom ℤ
sync_audio none timestamp = ret failure
sync_audio (some []) timestamp = ret failure
sync_audio (some (x ∷ xs)) timestamp = do
  s ← get
  branch (not s.is_running) (ret failure) do
    lock
    modify λ s. record s {
      sent = send_to_rooms s.slots s.room_count (x ∷ xs) s.sent;
      calls = elim s.sync_callback [
        | none ↦ s.calls
        | some f ↦ synced f (x ∷ xs) timestamp ∷ s.calls
      ];
    }
    unlock
    ret success

-- The rooms that a datagram can be sent to, the last first.
abbrev pub reachable : List Slot → ℕ → List Slot
reachable slots zero = []
reachable [] (suc n) = []
reachable (slot ∷ slots) (suc n) =
    reachable slots n ++ (if is_negative slot.socket then [] else slot ∷ [])

-- The datagrams of a sequence of rooms.
abbrev pub datagrams : List ℕ → List Slot → List Datagram
datagrams payload [] = []
datagrams payload (slot ∷ slots) =
    record { socket = slot.socket; address = slot.address; payload = payload }
    ∷ datagrams payload slots

datagrams-append :
    (payload : List ℕ) (xs : List Slot) (slot : Slot) (sent : List Datagram)
    → datagrams payload (xs ++ slot ∷ []) ++ sent
      ≡ datagrams payload xs
        ++ record { socket = slot.socket; address = slot.address; payload = payload } ∷ sent
datagrams-append payload [] slot sent = refl
datagrams-append payload (x ∷ xs) slot sent =
    ap (◌∷◌ (record { socket = x.socket; address = x.address; payload = payload }))
      (datagrams-append payload xs slot sent)

append-nil : (xs : List Slot) → xs ++ [] ≡ xs
append-nil [] = refl
append-nil (x ∷ xs) = ap (◌∷◌ x) (append-nil xs)

pub send_to_rooms_lem :
    (slots : List Slot) (n : ℕ) (payload : List ℕ) (sent : List Datagram)
    → send_to_rooms slots n payload sent ≡ datagrams payload (reachable slots n) ++ sent
unfolding send_to_rooms
send_to_rooms_lem slots zero payload sent = refl
send_to_rooms_lem [] (suc n) payload sent = refl
send_to_rooms_lem (slot ∷ slots) (suc n) payload sent = ground (
  arith,
  append-nil (reachable slots n),
  datagrams-append payload (reachable slots n) slot sent,
  send_to_rooms_lem slots n payload sent,
  send_to_rooms_lem slots n payload
      (record { socket = slot.socket; address = slot.address; payload = payload } ∷ sent),
)

-- For an unlocked, running module, a call with at least one byte returns 0, sends the bytes once to each
-- room that has a socket, in the order of the rooms, tells the sync callback once where there is one, and
-- changes nothing else.
pub sync_audio_lem :
    (x : ℕ) (xs : List ℕ) (timestamp : ℕ) (s : Multiroom)
    → s.locked ≡ false
    → s.is_running ≡ true
    → sync_audio (some (x ∷ xs)) timestamp s
      ≡ returns (
        success,
        record s {
          sent = datagrams (x ∷ xs) (reachable s.slots s.room_count) ++ s.sent;
          calls = elim s.sync_callback [
            | none ↦ s.calls
            | some f ↦ synced f (x ∷ xs) timestamp ∷ s.calls
          ];
        },
      )
unfolding sync_audio
sync_audio_lem x xs timestamp s l r =
    ground (arith, send_to_rooms_lem s.slots s.room_count (x ∷ xs) s.sent)

-- A module that is not running refuses the bytes and changes nothing.
pub sync_audio-refused :
    (payload : List ℕ) (timestamp : ℕ) (s : Multiroom)
    → s.is_running ≡ false
    → sync_audio (some payload) timestamp s ≡ returns (failure, s)
unfolding sync_audio
sync_audio-refused [] timestamp s r = refl
sync_audio-refused (x ∷ xs) timestamp s r = ground arith

send_to_closed :
    (slots : List Slot) (n : ℕ) (payload : List ℕ) (sent : List Datagram)
    → All IsClosed slots
    → send_to_rooms slots n payload sent ≡ sent
unfolding send_to_rooms
send_to_closed slots zero payload sent h = refl
send_to_closed [] (suc n) payload sent h = refl
send_to_closed (slot ∷ slots) (suc n) payload sent h =
    ground (arith, send_to_closed slots n payload sent h.1)

-- The rooms that are there when a running, enabled and unlocked module is stopped get no datagram after the
-- next start that succeeds, although the module runs and still counts them: `multiroom_stop` closes the
-- sockets that only `multiroom_add_room` opens.
pub sync_audio_restarted :
    (fd n : ℕ) (payload : List ℕ) (timestamp : ℕ) (s : Multiroom)
    → s.locked ≡ false
    → s.is_enabled ≡ true
    → s.is_running ≡ true
    → Returns
        (λ r. (r.1.sent ≡ s.sent) × (r.1.is_running ≡ true) × (r.1.room_count ≡ s.room_count))
        ((do _ ← stop; _ ← start (pos fd) (pos n); sync_audio (some payload) timestamp) s)
unfolding sync_audio start stop close_sockets
sync_audio_restarted fd n [] timestamp s l e r = ground arith
sync_audio_restarted fd n (x ∷ xs) timestamp s l e r = ground (
  arith,
  send_to_closed (close_slots s.slots s.kernel).0 s.room_count (x ∷ xs) s.sent
      (close_slots-IsClosed s.slots s.kernel),
)
