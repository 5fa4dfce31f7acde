-- ===== src/Multiroom/Ledger/Lives.antt =====
-- The accounts of multiroom_init, _start, _stop and _cleanup.
use airplay.Base.{
  ◌≡◌, refl, inl, inr, false, All, Bool-cases, arith, ℤ, success, returns, Returns, Returns-mono,
}
use airplay.Base.Descriptors.{count-granted}
use airplay.Multiroom.State.{Multiroom, close_slots, close_sockets}
use airplay.Multiroom.Lifecycle.{
  init, start, stop, cleanup, Bound, start-Bound, IsClosed, close_slots-IsClosed,
}
use airplay.Multiroom.Requests.{init_request, stop_request, cleanup_request, start_request}
use airplay.Multiroom.Ledger.Cleanup.{Cleaned, cleanup_idle}
use airplay.Multiroom.Accounts.{close_slots-count}
use airplay.Multiroom.Ledger.{Owns, Accounted, All-Rest, held-closed, granted_bad}

pub init-Accounted :
    (s : Multiroom) → s.locked ≡ false → Returns (Accounted init_request s) (init s)
unfolding init
init-Accounted s l = ground arith

pub cleanup-Accounted :
    (s : Multiroom)
    → s.locked ≡ false
    → s.is_running ≡ false
    → Owns s
    → Returns (Accounted cleanup_request s) (cleanup s)
cleanup-Accounted s l r o =
    Returns-mono (Cleaned s) (Accounted cleanup_request s) (cleanup s) (cleanup_idle s l r o) λ t c.
      (
        (λ n. omega (arith, c.7 n, held-closed n t.1.slots c.2)),
        c.6,
        All-Rest t.1.room_count t.1.slots c.2,
      )

pub stop-Accounted :
    (s : Multiroom) → s.locked ≡ false → Owns s → Returns (Accounted stop_request s) (stop s)
unfolding stop close_sockets
stop-Accounted s l o = elim (Bool-cases s.is_running) [
  | inl r ↦
      let closed_all : All IsClosed (close_slots s.slots s.kernel).0 =
        close_slots-IsClosed s.slots s.kernel in
      let run_stop : stop s
          ≡ returns (
            success,
            record s {
              slots = (close_slots s.slots s.kernel).0;
              kernel = (close_slots s.slots s.kernel).1;
              is_running = false;
              locked = false;
            },
          ) =
        ground (arith, l, r) in
      rw run_stop (
        (λ n. omega (
          arith,
          close_slots-count n s.slots s.kernel o.covers,
          held-closed n (close_slots s.slots s.kernel).0 closed_all,
        )),
        (close_slots-count 0 s.slots s.kernel o.covers).1,
        All-Rest s.room_count (close_slots s.slots s.kernel).0 closed_all,
      )
  | inr r ↦ ground (arith, l, r, o.rest)
]

pub start-Accounted :
    (fd b : ℤ) (s : Multiroom)
    → s.locked ≡ false
    → Owns s
    → Returns (Accounted (start_request fd b) s) (start fd b s)
start-Accounted fd b s l o =
    Returns-mono (Bound fd s) (Accounted (start_request fd b) s) (start fd b s)
      (start-Bound fd b s l) (bound fd b s o)
  where
    bound :
        (fd b : ℤ) (s : Multiroom)
        → Owns s
        → (r : ℤ × Multiroom) → Bound fd s r
        → Accounted (start_request fd b) s r
    bound fd b s o (a, t) (inl (z, en, off, nonneg, e)) =
        rw e
          ((λ n. ground (arith, off, count-granted fd n s.kernel)), granted_bad fd s.kernel, o.rest)
    bound fd b s o (a, t) (inr (e, why)) = rw e ((λ n. ground arith), refl, o.rest)
