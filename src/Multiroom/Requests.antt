-- ===== src/Multiroom/Requests.antt =====
-- The functions of src/multiroom.h as requests, and the invariant of the arrays under all of them.
use airplay.Base.{
  ℕ, suc, ◌≡◌, refl, ap, false, Option, none, some, List, [], ◌∷◌, length, All, IsString, c_string,
  arith, ℤ, is_negative, M, ret, ◌>>=◌, Returns, Returns-mono, Returns-eq, returns, success, Bool,
  if◌then◌else◌,
}
use airplay.Base.Kernel.{Kernel, closed}
use airplay.Multiroom.State.{MultiroomConfig, Slot, Multiroom, close_slots, close_sockets}
use airplay.Multiroom.Lifecycle.{init, start, stop, cleanup}
use airplay.Multiroom.Settings.{
  get_config, is_enabled, is_running, get_room_count, get_sync_delay, set_config, set_sync_delay,
  set_room_added_callback, set_room_removed_callback, set_sync_callback,
}
use airplay.Multiroom.Rooms.{add_room, remove_room, get_room_list}
use airplay.Multiroom.Sync.{sync_audio}
use airplay.Multiroom.Names.{IsRoom, IsWell}
use airplay.Multiroom.AddRoom.{add_room_lem}
use airplay.Multiroom.RemoveRoom.{remove_room_lem}

-- The calls, with the answers of the kernel that they read. The results of the getters do not matter here.
pub data Request : Type 0 where
  init_request stop_request cleanup_request : Request
  is_enabled_request is_running_request count_request get_delay_request : Request
  get_config_request : Bool → Request
  list_request : Option (List (List ℕ)) → Request
  config_request : Option MultiroomConfig → Request
  start_request : ℤ → ℤ → Request
  add_request : Option (List ℕ) → ℕ → ℤ → Request
  remove_request : Option (List ℕ) → Request
  sync_request : Option (List ℕ) → ℕ → Request
  delay_request : ℕ → Request
  added_request removed_request synced_request : Option ℕ → Request

unfoldable pub call : Request → M Multiroom ℤ
unfolding init start stop cleanup add_room remove_room sync_audio get_room_list
call init_request = init
call stop_request = stop
call cleanup_request = cleanup
call is_enabled_request = do _ ← is_enabled; ret success
call is_running_request = do _ ← is_running; ret success
call count_request = do _ ← get_room_count; ret success
call get_delay_request = do _ ← get_sync_delay; ret success
call (get_config_request config) = do (status, _) ← get_config config; ret status
call (list_request rows) = do (status, _) ← get_room_list rows; ret status
call (config_request c) = set_config c
call (start_request fd b) = start fd b
call (add_request name port fd) = add_room name port fd
call (remove_request name) = remove_room name
call (sync_request payload timestamp) = sync_audio payload timestamp
call (delay_request delay_ms) = set_sync_delay delay_ms
call (added_request f) = set_room_added_callback f
call (removed_request f) = set_room_removed_callback f
call (synced_request f) = set_sync_callback f

-- A name that is passed is a C string.
abbrev pub IsNamed : Request → Type 0
IsNamed (add_request (some name) port fd) = IsString name
IsNamed c = Unit

-- A name that is passed is a C string, and multiroom_cleanup comes while the module does not run.
abbrev pub IsAllowed : Request → Multiroom → Type 0
IsAllowed (add_request (some name) port fd) s = IsString name
IsAllowed cleanup_request s = s.is_running ≡ false
IsAllowed c s = Unit

-- Each call is allowed in the state in which it comes.
abbrev pub AllAllowed : List Request → Multiroom → Type 0
AllAllowed [] s = Unit
AllAllowed (c ∷ cs) s =
    IsAllowed c s × ((r : ℤ × Multiroom) → call c s ≡ returns r → AllAllowed cs r.1)

-- The mutex is free and the arrays are well formed.
abbrev pub IsIdle : Multiroom → Type 0
IsIdle s = (s.locked ≡ false) × IsWell s

close_slots-IsRoom :
    (slots : List Slot) (k : Kernel) → All IsRoom slots → All IsRoom (close_slots slots k).0
unfolding close_slots
close_slots-IsRoom [] k h = tt
close_slots-IsRoom (slot ∷ slots) k h = (
  ground (arith, h.0),
  close_slots-IsRoom slots (if is_negative slot.socket then k else closed slot.socket k) h.1,
)

length-close_slots :
    (slots : List Slot) (k : Kernel) → length (close_slots slots k).0 ≡ length slots
unfolding close_slots
length-close_slots [] k = refl
length-close_slots (slot ∷ slots) k =
    ap suc (length-close_slots slots (if is_negative slot.socket then k else closed slot.socket k))

-- Each call that is allowed, on an unlocked module with well-formed arrays, comes back with the module unlocked and the arrays well formed: eight slots, at most eight rooms, and a terminated name of
-- at most 31 bytes in each slot.
pub call-IsIdle :
    (c : Request) (s : Multiroom) → IsAllowed c s → IsIdle s → Returns (λ r. IsIdle r.1) (call c s)
unfolding call init start stop cleanup sync_audio get_room_list close_sockets add_room remove_room
    c_string
call-IsIdle init_request s h w = ground arith
call-IsIdle stop_request s h w =
    ground (arith, close_slots-IsRoom s.slots s.kernel w.1.2, length-close_slots s.slots s.kernel)
call-IsIdle cleanup_request s h w =
    ground (arith, close_slots-IsRoom s.slots s.kernel w.1.2, length-close_slots s.slots s.kernel)
call-IsIdle is_enabled_request s h w = ground arith
call-IsIdle is_running_request s h w = ground arith
call-IsIdle count_request s h w = ground arith
call-IsIdle get_delay_request s h w = ground arith
call-IsIdle (get_config_request config) s h w = ground arith
call-IsIdle (list_request none) s h w = w
call-IsIdle (list_request (some rows)) s h w = ground arith
call-IsIdle (config_request none) s h w = w
call-IsIdle (config_request (some c)) s h w = ground arith
call-IsIdle (start_request fd b) s h w = ground arith
call-IsIdle (add_request none port fd) s h w = w
call-IsIdle (add_request (some name) port fd) s h w =
    Returns-mono _ (λ r. IsIdle r.1) _ (add_room_lem name port fd s h w.1 w.0) λ r k. (k.1, k.0)
call-IsIdle (remove_request none) s h w = w
call-IsIdle (remove_request (some name)) s h w =
    Returns-mono _ (λ r. IsIdle r.1) _ (remove_room_lem name s w.1 w.0) λ r k. (k.1, k.0)
call-IsIdle (sync_request none timestamp) s h w = w
call-IsIdle (sync_request (some []) timestamp) s h w = w
call-IsIdle (sync_request (some (x ∷ xs)) timestamp) s h w = ground arith
call-IsIdle (delay_request delay_ms) s h w = ground arith
call-IsIdle (added_request f) s h w = ground arith
call-IsIdle (removed_request f) s h w = ground arith
call-IsIdle (synced_request f) s h w = ground arith

-- The calls of a client.
unfoldable pub run : List Request → M Multiroom (List ℤ)
run [] = ret []
run (c ∷ cs) = do status ← call c; rest ← run cs; ret (status ∷ rest)

-- Any sequence of calls that are allowed, on an unlocked module with well-formed arrays, comes back with a status for each, the module unlocked and the arrays well formed: eight slots, at most eight
-- rooms, and a terminated name of at most 31 bytes in each slot.
pub run-IsIdle :
    (cs : List Request) (s : Multiroom)
    → AllAllowed cs s
    → IsIdle s
    → Returns (λ r. (length r.0 ≡ length cs) × IsIdle r.1) (run cs s)
unfolding run
run-IsIdle [] s h w = (refl, w)
run-IsIdle (c ∷ cs) s h w =
    let ((status, t), e, idle) = Returns-eq (λ r. IsIdle r.1) (call c s) (call-IsIdle c s h.0 w) in
    let ((rest, u), f, (counted, x)) =
      Returns-eq _ (run cs t) (run-IsIdle cs t (h.1 (status, t) e) idle) in
    rw (e, ◌>>=◌, f) (ap suc counted, x)
