-- ===== src/Daemon/Options.antt =====
-- The options of main, and what main sets up before its first init.
use airplay.Base.{
  ℕ, ◌≡◌, ◌⊎◌, inl, inr, refl, arith, Bool, true, false, Bool-cases, Option, some, none, List, [],
  ◌∷◌, ◌==◌, if◌then◌else◌, All, pos, returns, FloatType,
}
use airplay.AirplayServer.Lifecycle.{StartAnswers}
use airplay.AirplayServer.Process.{PassAnswers}
use airplay.Daemon.State.{Daemon, Launch, Log}
use airplay.Daemon.Startup.{parse_options, set_up}
use airplay.Daemon.Program.{main}

-- What "df" lets getopt answer, but for '?'.
abbrev pub IsOption : ℕ → Type 0
IsOption opt = (opt ≡ b'd') ⊎ (opt ≡ b'f')

-- The last option of a list, with the given one before it.
abbrev pub last_of : ℕ → List ℕ → ℕ
last_of before [] = before
last_of before (opt ∷ options) = last_of opt options

-- The last of the options decides, if there is no other one among them.
parse_options_taken :
    (options : List ℕ) (before : ℕ)
    → IsOption before
    → All IsOption options
    → parse_options options (before == b'f') ≡ some (last_of before options == b'f')
unfolding parse_options
parse_options_taken [] before k h = refl
parse_options_taken (opt ∷ options) before k (inl d, h) =
    ground (arith, d, parse_options_taken options opt (inl d) h)
parse_options_taken (opt ∷ options) before k (inr f, h) =
    ground (arith, f, parse_options_taken options opt (inr f) h)

parse_options_refused :
    (options : List ℕ) (daemonize : Bool)
    → ¬ All IsOption options
    → parse_options options daemonize ≡ none
unfolding parse_options
parse_options_refused [] daemonize h = absurd (h tt)
parse_options_refused (opt ∷ options) daemonize h = elim (Bool-cases (opt == b'd')) [
  | inl d ↦
      ground (arith, parse_options_refused options false (λ k. h (inl (ground (arith, d)), k)))
  | inr d ↦ elim (Bool-cases (opt == b'f')) [
    | inl f ↦
        ground (arith, parse_options_refused options true (λ k. h (inr (ground (arith, f)), k)))
    | inr f ↦ ground arith
  ]
]

module _ {F : Type 0} where
  -- The state in which the first init is called.
  abbrev pub ready : Bool → Log → Daemon F → Daemon F
  ready detached log s = record s {
    detached = detached;
    log = some log;
    handled = 15 ∷ 2 ∷ 1 ∷ s.handled;
  }

  pub set_up_accepted :
      (launch : Launch) (s : Daemon F)
      → All IsOption launch.options
      → let daemonize = last_of b'f' launch.options == b'f' in
        set_up launch s
        ≡ returns (
          true,
          ready
              (if daemonize then launch.forked else s.detached)
              (record { option = 3; facility = if daemonize then 24 else 32 })
              s,
        )
  unfolding set_up
  set_up_accepted launch s h = ground (arith, parse_options_taken launch.options b'f' (inr refl) h)

-- All options are -d and -f, or there is another one.
options-Taken : (options : List ℕ) → Dec (All IsOption options)
options-Taken [] = yes tt
options-Taken (opt ∷ options) = elim (options-Taken options) [
  | no h ↦ no λ k. h k.1
  | yes h ↦ elim (Bool-cases (opt == b'd')) [
    | inl d ↦ yes (inl (ground (arith, d)), h)
    | inr d ↦ elim (Bool-cases (opt == b'f')) [
      | inl f ↦ yes (inr (ground (arith, f)), h)
      | inr f ↦ no λ k. elim k.0 [ inl e ↦ ground (arith, d, e) | inr e ↦ ground (arith, f, e) ]
    ]
  ]
]

module _ (fl : FloatType) where
  open fl use {F}

  -- Where all options are -d and -f, the last one decides, and without any it is as with -f. With -f the process is
  -- detached where daemon succeeds, and logs with the facility LOG_DAEMON. With -d it stays, and logs with the
  -- facility 32, which is LOG_AUTH. The options of openlog are LOG_PID and LOG_CONS with both, so that nothing
  -- is written to the standard error. The handlers of SIGTERM, SIGINT and SIGHUP are set, and nothing else
  -- is changed. With any other option, main exits with 1 before its first init, and changes nothing, whatever memory
  -- and kernel would answer.
  pub set_up_lem :
      (launch : Launch) (granted created : Bool) (answers : StartAnswers)
      (schedule : List (PassAnswers × Option ℕ)) (s : Daemon F)
      → let daemonize = last_of b'f' launch.options == b'f' in
        (All IsOption launch.options
          × (set_up launch s
              ≡ returns (
                true,
                ready
                    (if daemonize then launch.forked else s.detached)
                    (record { option = 3; facility = if daemonize then 24 else 32 })
                    s,
              )))
        ⊎ ((¬ All IsOption launch.options)
            × (main fl launch granted created answers schedule s ≡ returns (pos 1, s)))
  unfolding main set_up
  set_up_lem launch granted created answers schedule s = elim (options-Taken launch.options) [
    | yes h ↦ inl (h, set_up_accepted launch s h)
    | no h ↦ inr (h, ground (arith, parse_options_refused launch.options true h))
  ]
