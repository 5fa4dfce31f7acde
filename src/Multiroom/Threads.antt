-- ===== src/Multiroom/Threads.antt =====
-- The two functions of src/multiroom.c that read a variable without the mutex, with the calls that other
-- threads complete between that read and the part under the mutex.
pub mod RoomList
pub mod SyncAudio
use airplay.Base.{
  ℕ, zero, suc, ◌+◌, ◌≡◌, ◌≤◌, ◌<◌, refl, sym, ap, ◌∙◌, Bool, true, false, not, Option, none, some,
  List, [], ◌∷◌, ◌++◌, length, take, take_all, length-take, drop, set, All, All-append, Bool-cases,
  strncpy, c_string, c_string-strncpy, IsString, if◌then◌else◌, arith, ℤ, pos, negsuc, is_negative,
  success, failure, returns, M, ret, get, modify, branch, Returns, Returns-mono, Returns-eq,
  Returns-both, Returns->>=, ◌>>=◌, ◌>>◌, ◌⊎◌, inl, inr,
}
use airplay.Base.Kernel.{Kernel}
use airplay.Base.Descriptors.{count, holds, holds_self}
use airplay.Multiroom.State.{Slot, Datagram, Multiroom, synced, lock, unlock}
use airplay.Multiroom.Rooms.{copy_names, get_room_list}
use airplay.Multiroom.Names.{IsRoom, IsWell, names, names_of, c_string-IsString}
use airplay.Multiroom.Sync.{send_to_rooms, sync_audio, datagrams, reachable, send_to_rooms_lem}
use airplay.Multiroom.Requests.{Request, run, IsIdle, run-IsIdle}
use airplay.Multiroom.Accounts.{held, Covers}
use airplay.Multiroom.Ledger.{Owns}
use airplay.Multiroom.Ledger.Calls.{run-Owns}

-- multiroom_get_room_list on an array that is no null pointer. `others` are the calls of other threads between
-- the unlock and the read of `room_count` for the return.
unfoldable pub get_room_list_among :
    List Request → List (List ℕ) → M Multiroom (ℤ × Option (List (List ℕ)))
unfolding run
get_room_list_among others rows = do
  lock
  s ← get
  unlock
  _ ← run others
  t ← get
  ret (pos t.room_count, some (copy_names rows s.slots s.room_count))

-- multiroom_sync_audio on at least one byte. `others` are the calls of other threads between the read of
-- `is_running` and the lock.
unfoldable pub sync_audio_among : List Request → ℕ → List ℕ → ℕ → M Multiroom ℤ
unfolding run
sync_audio_among others x xs timestamp = do
  s ← get
  branch (not s.is_running) (ret failure) do
    _ ← run others
    lock
    modify λ t. record t {
      sent = send_to_rooms t.slots t.room_count (x ∷ xs) t.sent;
      calls = elim t.sync_callback [
        | none ↦ t.calls
        | some f ↦ synced f (x ∷ xs) timestamp ∷ t.calls
      ];
    }
    unlock
    ret success

-- Without such calls they are the functions.
get_room_list_alone :
    (rows : List (List ℕ)) (s : Multiroom)
    → get_room_list_among [] rows s ≡ get_room_list (some rows) s
unfolding get_room_list_among get_room_list run
get_room_list_alone rows s = ground arith

sync_audio_alone :
    (x : ℕ) (xs : List ℕ) (timestamp : ℕ) (s : Multiroom)
    → sync_audio_among [] x xs timestamp s ≡ sync_audio (some (x ∷ xs)) timestamp s
unfolding sync_audio_among sync_audio run
sync_audio_alone x xs timestamp s = ground arith
