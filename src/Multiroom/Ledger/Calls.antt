-- ===== src/Multiroom/Ledger/Calls.antt =====
-- The accounts of every call of src/multiroom.h, and of any sequence of them.
use airplay.Base.{
  blocks, Bool-cases, ap, ◌⊎◌, inl, inr, c_string, ◌≡◌, refl, ◌∙◌, none, some, List, [], ◌∷◌, arith,
  ℤ, Returns, Returns-both, Returns-eq, ◌>>=◌, true, false,
}
use airplay.Base.Kernel.{Kernel}
use airplay.Multiroom.State.{Multiroom, at_load}
use airplay.Multiroom.Lifecycle.{init, cleanup_blocks}
use airplay.Multiroom.Sync.{sync_audio}
use airplay.Multiroom.Rooms.{get_room_list}
use airplay.Multiroom.Requests.{
  IsNamed, Request, init_request, stop_request, config_request, start_request, add_request,
  remove_request, sync_request, delay_request, added_request, removed_request, synced_request, call,
  run, IsAllowed, AllAllowed, cleanup_request, is_enabled_request, is_running_request,
  count_request, get_delay_request, get_config_request, list_request, IsIdle, call-IsIdle,
}
use airplay.Multiroom.Ledger.{Owns, Accounted}
use airplay.Multiroom.Ledger.Lives.{
  cleanup-Accounted, init-Accounted, start-Accounted, stop-Accounted,
}
use airplay.Multiroom.Ledger.Rooms.{add-Accounted, remove-Accounted}

-- A call that is allowed.
allowed-Accounted :
    (c : Request) (s : Multiroom)
    → IsAllowed c s
    → IsIdle s
    → Owns s
    → Returns (Accounted c s) (call c s)
unfolding call sync_audio get_room_list
allowed-Accounted init_request s h w o = init-Accounted s w.0
allowed-Accounted stop_request s h w o = stop-Accounted s w.0 o
allowed-Accounted cleanup_request s h w o = cleanup-Accounted s w.0 h o
allowed-Accounted is_enabled_request s h w o = ground (arith, w.0, o.rest)
allowed-Accounted is_running_request s h w o = ground (arith, w.0, o.rest)
allowed-Accounted count_request s h w o = ground (arith, w.0, o.rest)
allowed-Accounted get_delay_request s h w o = ground (arith, w.0, o.rest)
allowed-Accounted (get_config_request false) s h w o = ((λ n. omega arith), refl, o.rest)
allowed-Accounted (get_config_request true) s h w o = ground (arith, w.0, o.rest)
allowed-Accounted (list_request none) s h w o = ((λ n. omega arith), refl, o.rest)
allowed-Accounted (list_request (some rows)) s h w o = ground (arith, w.0, o.rest)
allowed-Accounted (config_request none) s h w o = ((λ n. omega arith), refl, o.rest)
allowed-Accounted (config_request (some c)) s h w o = ground (arith, w.0, o.rest)
allowed-Accounted (start_request fd b) s h w o = start-Accounted fd b s w.0 o
allowed-Accounted (add_request name port fd) s h w o = add-Accounted name port fd s w.1 w.0 o
allowed-Accounted (remove_request name) s h w o = remove-Accounted name s w.1 w.0 o
allowed-Accounted (sync_request none timestamp) s h w o = ((λ n. omega arith), refl, o.rest)
allowed-Accounted (sync_request (some []) timestamp) s h w o = ((λ n. omega arith), refl, o.rest)
allowed-Accounted (sync_request (some (x ∷ xs)) timestamp) s h w o = ground (arith, w.0, o.rest)
allowed-Accounted (delay_request delay_ms) s h w o = ground (arith, w.0, o.rest)
allowed-Accounted (added_request f) s h w o = ground (arith, w.0, o.rest)
allowed-Accounted (removed_request f) s h w o = ground (arith, w.0, o.rest)
allowed-Accounted (synced_request f) s h w o = ground (arith, w.0, o.rest)

-- A call whose name is a C string is allowed, or it is a cleanup of a running module.
split_cleanup :
    (c : Request) (s : Multiroom)
    → IsNamed c
    → IsAllowed c s ⊎ ((c ≡ cleanup_request) × (s.is_running ≡ true))
split_cleanup cleanup_request s h = elim (Bool-cases s.is_running) [
  | inl r ↦ inr (refl, r)
  | inr r ↦ inl r
]
split_cleanup (add_request none port fd) s h = inl tt
split_cleanup (add_request (some name) port fd) s h = inl h
split_cleanup _ s h = inl tt

cleanup_call :
    (s : Multiroom) → s.locked ≡ false → s.is_running ≡ true → call cleanup_request s ≡ blocks
unfolding call
cleanup_call s l r = cleanup_blocks s l r

-- Each call of the interface, getters included, with a C string as a name, on an unlocked module with well-formed
-- arrays in which each room's socket is open and no other slot has one. It is a multiroom_cleanup on a module that
-- runs, and never comes back; or it comes back, and closes no descriptor that is not open. Number by number, what is
-- open and what the slots hold then change alike, but for what is dropped: the sockets of the rooms in multiroom_init,
-- and the socket of a multiroom_start that takes effect. No slot behind the rooms has a socket afterwards.
pub call-Accounted :
    (c : Request) (s : Multiroom)
    → IsNamed c
    → IsIdle s
    → Owns s
    → ((c ≡ cleanup_request) × (s.is_running ≡ true) × (call c s ≡ blocks))
      ⊎ Returns (Accounted c s) (call c s)
call-Accounted c s h w o = elim (split_cleanup c s h) [
  | inl allowed ↦ inr (allowed-Accounted c s allowed w o)
  | inr (e, r) ↦ inl (e, r, ap (λ d. call d s) e ∙ cleanup_call s w.0 r)
]

Accounted-Owns :
    (c : Request) (s : Multiroom) (r : ℤ × Multiroom) → Owns s → Accounted c s r → Owns r.1
Accounted-Owns c s r o a = record { covers = λ n. omega (arith, o.covers n, a.0 n); rest = a.2 }

-- No descriptor was closed that was not open, since the process had the descriptors `k`.
abbrev pub Keeps : Kernel → Multiroom → Type 0
Keeps k s = IsIdle s × Owns s × (s.kernel.bad_closes ≡ k.bad_closes)

-- Any sequence of calls that are allowed, on an unlocked module with well-formed arrays in which each room's socket is open and no other slot has one, comes back with the same true of the module, and has closed no
-- descriptor that was not open.
pub run-Owns :
    (cs : List Request) (s : Multiroom)
    → AllAllowed cs s
    → IsIdle s
    → Owns s
    → Returns (λ r. Keeps s.kernel r.1) (run cs s)
unfolding run
run-Owns [] s h w o = (w, o, refl)
run-Owns (c ∷ cs) s h w o =
    let ((status, t), e, (idle, counted)) =
      Returns-eq (λ r. IsIdle r.1 × Accounted c s r) (call c s)
        (Returns-both (λ r. IsIdle r.1) (Accounted c s) (call c s) (call-IsIdle c s h.0 w)
          (allowed-Accounted c s h.0 w o)) in
    let owns : Owns t = Accounted-Owns c s (status, t) o counted in
    let ((rest, u), f, x) =
      Returns-eq (λ r. Keeps t.kernel r.1) (run cs t)
        (run-Owns cs t (h.1 (status, t) e) idle owns) in
    rw (e, ◌>>=◌, f) (x.0, x.1, x.2 ∙ counted.1)

-- In the static initialisers each slot has the socket 0, which multiroom_init replaces.
init_loaded : (k : Kernel) → Returns (λ r. Keeps k r.1) (call init_request (at_load k))
unfolding call init c_string
init_loaded k = (ground arith, record { covers = λ n. omega arith; rest = ground arith }, refl)

-- From the static initialisers on, multiroom_init and any sequence of calls of the interface, getters included, in
-- which names are C strings and multiroom_cleanup comes only while the module does not run: all of them come back, and
-- no descriptor is closed that is not open, so that none is closed twice. Behind the calls each room's socket is
-- open, no other slot has one, the arrays are well formed and the mutex is free.
pub run_loaded :
    (cs : List Request) (k : Kernel)
    → AllAllowed (init_request ∷ cs) (at_load k)
    → Returns (λ r. Keeps k r.1) (run (init_request ∷ cs) (at_load k))
unfolding run
run_loaded cs k h =
    let ((status, t), e, u) =
      Returns-eq (λ r. Keeps k r.1) (call init_request (at_load k)) (init_loaded k) in
    let ((rest, v), f, x) =
      Returns-eq (λ r. Keeps t.kernel r.1) (run cs t) (run-Owns cs t (h.1 (status, t) e) u.0 u.1) in
    rw (e, ◌>>=◌, f) (x.0, x.1, x.2 ∙ u.2)
