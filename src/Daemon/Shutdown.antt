-- ===== src/Daemon/Shutdown.antt =====
-- The loop of main under a schedule of signals, and the shutdown behind it.
use airplay.Base.{
  ℕ, ◌≡◌, refl, arith, Bool, true, false, some, List, [], ◌∷◌, ℤ, returns, Returns-eq, ◌∙◌, Option,
  none, if◌then◌else◌, Bool-cases, ◌==◌, ◌||◌, ◌⊎◌, inl, inr,
}
use airplay.AirplayServer.State.{Server}
use airplay.AirplayServer.Process.{PassAnswers, process}
use airplay.AirplayServer.Accept.{IsFresh}
use airplay.AirplayServer.Pass.{IsUp, process-IsUp}
use airplay.Daemon.State.{Daemon, sigterm, sigint}
use airplay.Daemon.Program.{loop}
use airplay.Daemon.Startup.{deliver}

-- Whether a signal ends the program.
abbrev pub is_fatal : Option ℕ → Bool
is_fatal none = false
is_fatal (some sig) = sig == sigterm || sig == sigint

-- A SIGTERM or a SIGINT comes in one of the passes.
abbrev pub Ends : List (PassAnswers × Option ℕ) → Type 0
Ends [] = ⊥
Ends ((answers, signal) ∷ schedule) = (is_fatal signal ≡ true) ⊎ Ends schedule

-- In each pass, accept gives no descriptor that is open.
abbrev pub AllFresh : List (PassAnswers × Option ℕ) → Server → Type 0
AllFresh [] v = Unit
AllFresh ((answers, signal) ∷ schedule) v =
    IsFresh answers.accept v.kernel
    × ((r : ℤ × Server) → process answers v ≡ returns r → AllFresh schedule r.1)

module _ {F : Type 0} where
  -- The program with its server up.
  abbrev pub with_server : Server → Daemon F → Daemon F
  with_server v s = record s { server = some v; kernel = v.kernel }

  loop_stopped :
      (schedule : List (PassAnswers × Option ℕ)) (s : Daemon F)
      → s.running ≡ false
      → loop schedule s ≡ returns (tt, s)
  unfolding loop
  loop_stopped [] s r = ground (arith, r)
  loop_stopped ((answers, signal) ∷ schedule) s r = ground (arith, r)

  -- What a signal does.
  after : Option ℕ → Daemon F → Daemon F
  after signal s = if is_fatal signal then record s { running = false } else s

  deliver_lem : (signal : Option ℕ) (s : Daemon F) → deliver signal s ≡ returns (tt, after signal s)
  unfolding after
  deliver_lem none s = refl
  deliver_lem (some sig) s = ground arith

  -- A pass of the loop.
  loop_pass :
      (answers : PassAnswers) (signal : Option ℕ) (schedule : List (PassAnswers × Option ℕ))
      (v : Server) (s : Daemon F) (r : ℤ × Server)
      → s.running ≡ true
      → process answers v ≡ returns r
      → loop ((answers, signal) ∷ schedule) (with_server v s)
        ≡ loop schedule (with_server r.1 (after signal s))
  unfolding loop after
  loop_pass answers none schedule v s (status, w) r p = ground (arith, r, p)
  loop_pass answers (some sig) schedule v s (status, w) r p = ground (arith, r, p)

  -- The loop ends, and changes nothing but the server and `running`.
  pub loop-IsUp :
      (schedule : List (PassAnswers × Option ℕ)) (others : ℕ → ℕ) (bad : ℕ) (v : Server)
      (s : Daemon F)
      → Ends schedule
      → AllFresh schedule v
      → IsUp others bad v
      → s.running ≡ true
      → (w : Server) × (loop schedule (with_server v s)
          ≡ returns (tt, with_server w (record s { running = false })))
        × IsUp others bad w
  unfolding after
  loop-IsUp [] others bad v s e f h r = absurd e
  loop-IsUp ((answers, signal) ∷ schedule) others bad v s e f h r =
      let (q, p, up) =
        Returns-eq (λ r. IsUp others bad r.1) (process answers v)
          (process-IsUp answers others bad v f.0 h) in
      elim (Bool-cases (is_fatal signal)) [
        | inl fatal ↦ (
          q.1,
          loop_pass answers signal schedule v s q r p
              ∙ simp fatal
                  (loop_stopped schedule (with_server q.1 (record s { running = false })) refl),
          up,
        )
        | inr harmless ↦
            let later : Ends schedule = ground (arith, e, harmless) in
            let (w, l, up') = loop-IsUp schedule others bad q.1 s later (f.1 q p) up r in
            (w, loop_pass answers signal schedule v s q r p ∙ simp harmless l, up')
      ]
