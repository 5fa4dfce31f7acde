-- ===== src/AirplayServer/State.antt =====
-- struct airplay_server of src/airplay_server.c, with the process's descriptors and what is sent.
use airplay.Base.{ℕ, Bool, false, Option, none, List, [], replicate, strncpy, codes, ℤ, pos}
use airplay.Base.Kernel.{Kernel}

abbrev pub max_clients : ℕ
max_clients = 4

abbrev pub airplay_port : ℕ
airplay_port = 7000

-- The arrays hold 64, 32, 64 and 32 bytes.
pub record AirplayConfig : Type 0 where
  pub device_name : List ℕ
  pub model_name : List ℕ
  pub device_id : List ℕ
  pub port : ℕ
  pub enable_multiroom : Bool
  pub multiroom_group : List ℕ

-- The address of a peer, as its bytes and its port.
pub record Peer : Type 0 where
  pub sin_addr : List ℕ
  pub sin_port : ℕ

pub record Client : Type 0 where
  pub fd : ℤ
  pub addr : Peer
  pub connected : Bool
  pub session_id : List ℕ

-- A function pointer is the number of its function, `none` the null pointer.
pub record Callbacks : Type 0 where
  pub audio : Option ℕ
  pub volume : Option ℕ
  pub play : Option ℕ
  pub pause : Option ℕ
  pub stop : Option ℕ
  pub next : Option ℕ
  pub previous : Option ℕ

-- A message that is handed to send.
pub record Message : Type 0 where
  pub fd : ℤ
  pub bytes : List ℕ

-- The two Avahi objects are the handles that the library gave out. `sent` is newest first.
pub record Server : Type 0 where
  pub socket_fd : ℤ
  pub config : AirplayConfig
  pub callbacks : Callbacks
  pub clients : List Client
  pub avahi_client : Option ℕ
  pub entry_group : Option ℕ
  pub running : Bool
  pub kernel : Kernel
  pub sent : List Message

abbrev no_client : Client
no_client = record {
  fd = pos 0;
  addr = record { sin_addr = replicate 4 0; sin_port = 0 };
  connected = false;
  session_id = replicate 64 0;
}

-- airplay_server_create, where calloc gives memory: every field is 0 but those of the configuration.
abbrev pub create : Kernel → Server
create kernel = record {
  socket_fd = pos 0;
  config = record {
    device_name = strncpy (replicate 64 0) (codes "OpenWRT AirPlay") 63;
    model_name = strncpy (replicate 32 0) (codes "OpenWRT") 31;
    device_id = strncpy (replicate 64 0) (codes "OpenWRT-AirPlay-001") 63;
    port = airplay_port;
    enable_multiroom = false;
    multiroom_group = replicate 32 0;
  };
  callbacks = record {
    audio = none;
    volume = none;
    play = none;
    pause = none;
    stop = none;
    next = none;
    previous = none;
  };
  clients = replicate max_clients no_client;
  avahi_client = none;
  entry_group = none;
  running = false;
  kernel = kernel;
  sent = [];
}
