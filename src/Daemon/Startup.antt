-- ===== src/Daemon/Startup.antt =====
-- main of src/main.c up to its first init: the options, the log and the signals.
use airplay.Base.{
  ℕ, Bool, true, false, Option, none, some, List, [], ◌∷◌, ◌+◌, ◌==◌, ◌||◌, if◌then◌else◌, returns,
  M, ret, ◌>>◌, modify, branch,
}
use airplay.Daemon.State.{
  Log, log_pid, log_cons, log_perror, log_daemon, sighup, sigint, sigterm, Launch, Daemon,
}

-- The loop over the options; `none` is the exit with the usage.
unfoldable pub parse_options : List ℕ → Bool → Option Bool
parse_options [] daemonize = some daemonize
parse_options (opt ∷ options) daemonize = elim (opt == b'd') [
  | true ↦ parse_options options false
  | false ↦ elim (opt == b'f') [ true ↦ parse_options options true | false ↦ none ]
]

-- Of LOG_PERROR the facility is made, and not an option.
abbrev pub log_of : Bool → Log
log_of daemonize = record {
  option = log_pid + log_cons;
  facility = if daemonize then log_daemon else log_perror;
}

module _ {F : Type 0} where
  abbrev pub open_log : Bool → Bool → M (Daemon F) (Unit {0})
  open_log daemonize forked = modify λ s. record s {
    log = some (log_of daemonize);
    detached = if daemonize then forked else s.detached;
  }

  abbrev pub setup_signal_handlers : M (Daemon F) (Unit {0})
  setup_signal_handlers = modify λ s. record s { handled = sigterm ∷ sigint ∷ sighup ∷ s.handled }

  abbrev pub signal_handler : ℕ → M (Daemon F) (Unit {0})
  signal_handler sig =
      branch (sig == sigterm || sig == sigint) (modify λ s. record s { running = false }) (ret tt)

  -- main up to its first init. The result is whether it goes on.
  unfoldable pub set_up : Launch → M (Daemon F) Bool
  unfolding parse_options
  set_up launch s = elim (parse_options launch.options true) [
    | none ↦ returns (false, s)
    | some daemonize ↦ (do open_log daemonize launch.forked; setup_signal_handlers; ret true) s
  ]

  -- A signal that comes in a pass is one that setup_signal_handlers sets the handler of.
  abbrev pub deliver : Option ℕ → M (Daemon F) (Unit {0})
  deliver none = ret tt
  deliver (some sig) = signal_handler sig
