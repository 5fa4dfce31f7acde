-- ===== src/Multiroom/Lifecycle.antt =====
-- multiroom_init, _cleanup, _start and _stop.
use airplay.Base.{
  ◌≡◌, true, false, not, none, List, [], ◌∷◌, replicate, strncpy, codes, arith, ℤ, pos, negsuc,
  success, failure, is_negative, blocks, M, ret, ◌>>=◌, ◌>>◌, get, modify, branch, when, Returns,
  All, if◌then◌else◌, ◌⊎◌,
}
use airplay.Base.Kernel.{Kernel, granted, closed, closed-granted}
use airplay.Multiroom.State.{
  Slot, Multiroom, max_rooms, cleared, lock, unlock, close_slots, close_sockets,
}

-- The copies leave the last byte of each array as it is.
unfoldable pub init : M Multiroom ℤ
init = do
  lock
  modify λ s. record s {
    config = record (s.config) {
      room_name = strncpy s.config.room_name (codes "Default Room") 31;
      enabled = false;
      port = 7001;
      group_id = strncpy s.config.group_id (codes "default-group") 63;
    };
    room_count = 0;
    slots = replicate max_rooms cleared;
  }
  unlock
  ret success

-- The answers of socket and bind are arguments. The socket is not kept.
unfoldable pub start : ℤ → ℤ → M Multiroom ℤ
start socket_answer bind_answer = do
  lock
  s ← get
  branch (not s.is_enabled) (do unlock; ret success)
      (branch s.is_running (do unlock; ret success)
        do
          modify λ s. record s { kernel = granted socket_answer s.kernel }
          branch (is_negative socket_answer) (do unlock; ret failure)
              (branch (is_negative bind_answer)
                (do
                  modify λ s. record s { kernel = closed socket_answer s.kernel }
                  unlock
                  ret failure)
                (do modify λ s. record s { is_running = true }; unlock; ret success)))

unfoldable pub stop : M Multiroom ℤ
stop = do
  lock
  s ← get
  branch (not s.is_running) (do unlock; ret success)
      do close_sockets; modify λ s. record s { is_running = false }; unlock; ret success

unfoldable pub cleanup : M Multiroom ℤ
unfolding stop
cleanup = do
  lock
  s ← get
  when s.is_running (do _ ← stop; ret tt)
  close_sockets
  modify λ s. record s {
    room_added_callback = none;
    room_removed_callback = none;
    sync_callback = none;
  }
  unlock
  ret success

-- The mutex is taken twice.
pub cleanup_blocks : (s : Multiroom) → s.locked ≡ false → s.is_running ≡ true → cleanup s ≡ blocks
unfolding cleanup
cleanup_blocks s l r = ground arith

-- A start that fails or is not wanted leaves the descriptors alone, and everything else.
abbrev pub Bound : ℤ → Multiroom → ℤ × Multiroom → Type 0
Bound fd s r =
    ((r.0 ≡ success)
      × (s.is_enabled ≡ true)
      × (s.is_running ≡ false)
      × (is_negative fd ≡ false)
      × (r.1 ≡ record s { is_running = true; kernel = granted fd s.kernel }))
    ⊎ ((r.1 ≡ s) × ((r.0 ≡ failure) ⊎ (s.is_enabled ≡ false) ⊎ (s.is_running ≡ true)))

-- A start of an unlocked module, whatever socket and bind answer: it returns 0, with the module enabled
-- before, not running before and running after, and the socket open; or it leaves everything as it was,
-- and either returns -1 or finds the module not enabled or running already.
pub start-Bound :
    (fd b : ℤ) (s : Multiroom) → s.locked ≡ false → Returns (Bound fd s) (start fd b s)
unfolding start
start-Bound (negsuc n) b s l = ground arith
start-Bound (pos n) (pos m) s l = ground arith
start-Bound (pos n) (negsuc m) s l = ground (arith, closed-granted n s.kernel)

-- No socket in an index.
abbrev pub IsClosed : Slot → Type 0
IsClosed slot = is_negative slot.socket ≡ true

pub close_slots-IsClosed : (slots : List Slot) (k : Kernel) → All IsClosed (close_slots slots k).0
unfolding close_slots
close_slots-IsClosed [] k = tt
close_slots-IsClosed (slot ∷ slots) k = (
  ground arith,
  close_slots-IsClosed slots (if is_negative slot.socket then k else closed slot.socket k),
)
