-- ===== src/Daemon/Examples.antt =====
-- main on concrete answers of the kernel: one pass that times out, and a signal in the next.
use airplay.Base.{
  failure, inl, inr, All, ◌⊎◌, Option, ℕ, ◌≡◌, refl, arith, true, false, some, none, List, [], ◌∷◌,
  pos, negsuc, success, returns, Returns,
}
use airplay.Base.Hundredths.{hundredths}
use airplay.Base.Kernel.{Kernel}
use airplay.AudioOutput.State.{at_load as audio_at_load}
use airplay.PlaybackControl.{at_load as playback_at_load}
use airplay.Multiroom.State.{at_load as multiroom_at_load}
use airplay.AirplayServer.State.{Server, create}
use airplay.AirplayServer.Lifecycle.{StartAnswers, start}
use airplay.AirplayServer.Process.{PassAnswers}
use airplay.Base.Descriptors.{count}
use airplay.Daemon.State.{Daemon, Launch}
use airplay.Daemon.Startup.{parse_options, set_up}
use airplay.Daemon.Program.{main}
use airplay.Daemon.Parts.{IsQuiet}
use airplay.Daemon.Shutdown.{AllFresh}
use airplay.Daemon.Served.{LeavesClean}
use airplay.AirplayServer.Accept.{IsFresh}
use airplay.Daemon.Failed.{Abandons}
use airplay.Daemon.Main.{main_lem, main-Abandons}
use airplay.Daemon.Options.{IsOption, ready, set_up_lem}

abbrev kernel : Kernel
kernel = record { open_fds = 0 ∷ 1 ∷ 2 ∷ []; bad_closes = 0 }

-- The static initialisers of all the modules.
abbrev daemon : Daemon ℕ
daemon = record {
  running = true;
  detached = false;
  log = none;
  handled = [];
  server = none;
  volume = record {
    locked = false;
    current_volume = 50;
    is_muted = false;
    volume_callback = none;
    calls = [];
    audio = audio_at_load;
  };
  playback = playback_at_load;
  multiroom = multiroom_at_load kernel;
  kernel = kernel;
}

daemon-IsQuiet : IsQuiet daemon
daemon-IsQuiet = record {
  volume_unlocked = refl;
  audio_sound = record {
    unlocked = refl;
    matched = tt;
    balanced = refl;
    mixers_closed = refl;
    fits = tt;
    large_enough = omega arith;
    small_enough = omega arith;
    nothing_queued = refl;
  };
  audio_idle = refl;
  playback_unlocked = refl;
  multiroom_unlocked = refl;
  multiroom_idle = refl;
}

abbrev answers : StartAnswers
answers = record { socket = pos 5; bind = pos 0; listen = pos 0; avahi = some 1 }

abbrev server : Server
server = record (create kernel) {
  socket_fd = pos 5;
  avahi_client = some 1;
  running = true;
  kernel = record { open_fds = 5 ∷ kernel.open_fds; bad_closes = 0 };
}

started : start answers (create kernel) ≡ returns (success, server)
unfolding start
started = refl

-- select times out.
abbrev idle : PassAnswers
idle = record {
  select = pos 0;
  interrupted = false;
  ready = λ fd. false;
  accept = negsuc 0;
  peer = record { sin_addr = []; sin_port = 0 };
  recv = λ fd. none;
}

abbrev schedule : List (PassAnswers × Option ℕ)
schedule = (idle, some 1) ∷ (idle, none) ∷ (idle, some 15) ∷ []

schedule-AllFresh : AllFresh schedule server
schedule-AllFresh = (
  (λ n e. absurd (cc e)),
  λ r p. ((λ n e. absurd (cc e)), λ r' p'. ((λ n e. absurd (cc e)), λ q k. tt)),
)

abbrev launch : Launch
launch = record { options = b'f' ∷ b'd' ∷ []; forked = true }

launch-IsOption : All IsOption launch.options
launch-IsOption = (inr refl, (inl refl, tt))

abbrev foreground : Daemon ℕ
foreground = ready false (record { option = 3; facility = 32 }) daemon

-- The last option is -d.
set_up_lem_example :
    (All IsOption launch.options × (set_up launch daemon ≡ returns (true, foreground)))
    ⊎ ((¬ All IsOption launch.options)
        × (main hundredths launch true true answers schedule daemon ≡ returns (pos 1, daemon)))
set_up_lem_example = set_up_lem hundredths launch true true answers schedule daemon

-- `airplay2-lite -d -x`.
misspelt :
    main hundredths (record launch { options = b'd' ∷ b'?' ∷ [] }) true true answers [] daemon
    ≡ returns (pos 1, daemon)
unfolding main set_up parse_options
misspelt = refl

main_lem_example :
    Returns
      (LeavesClean (λ n. count n kernel.open_fds) 0)
      (main hundredths launch true true answers schedule daemon)
main_lem_example =
    main_lem hundredths launch answers schedule server daemon launch-IsOption daemon-IsQuiet refl
      started (inr (inr (inl refl))) schedule-AllFresh

-- A port that is taken.
abbrev refused : StartAnswers
refused = record answers { bind = negsuc 0 }

abbrev failed : Server
failed = record (create kernel) { socket_fd = pos 5 }

not_started : start refused (create kernel) ≡ returns (failure, failed)
unfolding start
not_started = refl

five-IsFresh : IsFresh refused.socket daemon.kernel
five-IsFresh n e = ground arith

main-Abandons_example :
    Returns (Abandons 1 daemon) (main hundredths launch true true refused schedule daemon)
main-Abandons_example =
    main-Abandons hundredths launch true true refused schedule failed daemon launch-IsOption
      daemon-IsQuiet refl five-IsFresh (inr (inr (refl, refl, not_started)))
