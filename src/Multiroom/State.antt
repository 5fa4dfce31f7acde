-- ===== src/Multiroom/State.antt =====
-- The static variables of src/multiroom.c as one record, with the process's descriptors and what the
-- module sends and calls.
use airplay.Base.{
  ℕ, Bool, true, false, Option, none, List, [], ◌∷◌, replicate, ℤ, pos, negsuc, is_negative,
  returns, blocks, M, modify, if◌then◌else◌,
}
use airplay.Base.Kernel.{Kernel, closed}

abbrev pub max_rooms : ℕ
max_rooms = 8

abbrev pub max_room_name_len : ℕ
max_room_name_len = 32

-- The arrays of the configuration hold 32 and 64 bytes.
pub record MultiroomConfig : Type 0 where
  pub room_name : List ℕ
  pub enabled : Bool
  pub port : ℕ
  pub group_id : List ℕ

-- The fields of a sockaddr_in that are set; 2 is AF_INET. `sin_addr` is never set, and stays 0.
pub record Address : Type 0 where
  pub sin_family : ℕ
  pub sin_port : ℕ

-- One index of the arrays `rooms`, `room_sockets` and `room_addresses`.
pub record Slot : Type 0 where
  pub room : List ℕ
  pub socket : ℤ
  pub address : Address

-- A call through one of the three function pointers.
pub data Call : Type 0 where
  room_added : ℕ → List ℕ → Call
  room_removed : ℕ → List ℕ → Call
  synced : ℕ → List ℕ → ℕ → Call

-- A datagram that is handed to sendto.
pub record Datagram : Type 0 where
  pub socket : ℤ
  pub address : Address
  pub payload : List ℕ

-- `calls` and `sent` are newest first.
pub record Multiroom : Type 0 where
  pub locked : Bool
  pub config : MultiroomConfig
  pub is_running : Bool
  pub is_enabled : Bool
  pub slots : List Slot
  pub room_count : ℕ
  pub room_added_callback : Option ℕ
  pub room_removed_callback : Option ℕ
  pub sync_callback : Option ℕ
  pub sync_delay_ms : ℕ
  pub kernel : Kernel
  pub calls : List Call
  pub sent : List Datagram

abbrev pub no_address : Address
no_address = record { sin_family = 0; sin_port = 0 }

-- An index after memset and `room_sockets[i] = -1`.
abbrev pub cleared : Slot
cleared = record { room = replicate 32 0; socket = negsuc 0; address = no_address }

-- An index of the static arrays, which C fills with zeros.
abbrev static_slot : Slot
static_slot = record { room = replicate 32 0; socket = pos 0; address = no_address }

-- The static initialisers, in a process with the descriptors `kernel`.
abbrev pub at_load : Kernel → Multiroom
at_load kernel = record {
  locked = false;
  config = record {
    room_name = replicate 32 0;
    enabled = false;
    port = 0;
    group_id = replicate 64 0;
  };
  is_running = false;
  is_enabled = false;
  slots = replicate 8 static_slot;
  room_count = 0;
  room_added_callback = none;
  room_removed_callback = none;
  sync_callback = none;
  sync_delay_ms = 100;
  kernel = kernel;
  calls = [];
  sent = [];
}

-- pthread_mutex_lock on a plain mutex: a thread that holds it already waits for ever.
abbrev pub lock : M Multiroom (Unit {0})
lock s = elim s.locked [ true ↦ blocks | false ↦ returns (tt, record s { locked = true }) ]

abbrev pub unlock : M Multiroom (Unit {0})
unlock = modify λ s. record s { locked = false }

-- `if (room_sockets[i] >= 0) { close(room_sockets[i]); room_sockets[i] = -1; }` for every index.
unfoldable pub close_slots : List Slot → Kernel → List Slot × Kernel
close_slots [] k = ([], k)
close_slots (slot ∷ slots) k =
    let k' = if is_negative slot.socket then k else closed slot.socket k in
    let (slots', k'') = close_slots slots k' in
    let slot' = if is_negative slot.socket then slot else record slot { socket = negsuc 0 } in
    (slot' ∷ slots', k'')

unfoldable pub close_sockets : M Multiroom (Unit {0})
close_sockets = modify λ s. record s {
  slots = (close_slots s.slots s.kernel).0;
  kernel = (close_slots s.slots s.kernel).1;
}
