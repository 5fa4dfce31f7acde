-- ===== src/Daemon/State.antt =====
-- The variables of src/main.c and of the modules, and the calls of the modules on them.
use airplay.Base.{ℕ, Bool, Option, none, some, List, returns, blocks, faults, M}
use airplay.Base.Kernel.{Kernel}
use airplay.VolumeControl.{Volume}
use airplay.PlaybackControl.{Playback}
use airplay.Multiroom.State.{Multiroom}
use airplay.AirplayServer.State.{Server}

-- The arguments of openlog, as <syslog.h> numbers them.
pub record Log : Type 0 where
  pub option : ℕ
  pub facility : ℕ

abbrev pub log_pid : ℕ
log_pid = 1

abbrev pub log_cons : ℕ
log_cons = 2

abbrev pub log_perror : ℕ
log_perror = 32

abbrev pub log_daemon : ℕ
log_daemon = 24

abbrev pub sighup : ℕ
sighup = 1

abbrev pub sigint : ℕ
sigint = 2

abbrev pub sigterm : ℕ
sigterm = 15

-- What getopt answers until it answers -1, and whether daemon succeeds.
pub record Launch : Type 0 where
  pub options : List ℕ
  pub forked : Bool

-- The variables of main and of the modules; the audio output's stand in those of the volume control. The
-- descriptors are one account, which each call gets and gives back. `detached` says whether the process
-- has left its terminal, `log` is what openlog was called with, and `handled` are the signals whose handler
-- is signal_handler.
pub record Daemon (F : Type 0) : Type 0 where
  pub running : Bool
  pub detached : Bool
  pub log : Option Log
  pub handled : List ℕ
  pub server : Option Server
  pub volume : Volume F
  pub playback : Playback
  pub multiroom : Multiroom
  pub kernel : Kernel

module _ {F : Type 0} where
  -- A call of a function of a module.
  abbrev pub on_volume : {A : Type 0} → M (Volume F) A → M (Daemon F) A
  on_volume m s = elim (m s.volume) [
    | returns (a, t) ↦ returns (a, record s { volume = t })
    | blocks ↦ blocks
    | faults ↦ faults
  ]

  abbrev pub on_playback : {A : Type 0} → M Playback A → M (Daemon F) A
  on_playback m s = elim (m s.playback) [
    | returns (a, t) ↦ returns (a, record s { playback = t })
    | blocks ↦ blocks
    | faults ↦ faults
  ]

  abbrev pub on_multiroom : {A : Type 0} → M Multiroom A → M (Daemon F) A
  on_multiroom m s = elim (m (record (s.multiroom) { kernel = s.kernel })) [
    | returns (a, t) ↦ returns (a, record s { multiroom = t; kernel = t.kernel })
    | blocks ↦ blocks
    | faults ↦ faults
  ]

  -- The functions of the server get no null pointer from main.
  abbrev pub on_server : {A : Type 0} → M Server A → M (Daemon F) A
  on_server m s = elim s.server [
    | none ↦ faults
    | some v ↦ elim (m (record v { kernel = s.kernel })) [
      | returns (a, t) ↦ returns (a, record s { server = some t; kernel = t.kernel })
      | blocks ↦ blocks
      | faults ↦ faults
    ]
  ]
