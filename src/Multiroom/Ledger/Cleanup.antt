-- ===== src/Multiroom/Ledger/Cleanup.antt =====
-- multiroom_cleanup.
use airplay.Base.{ℕ, ◌+◌, ◌≡◌, refl, false, none, All, arith, ℤ, success, returns, Returns}
use airplay.Base.Descriptors.{count}
use airplay.Multiroom.State.{Multiroom, close_slots, close_sockets}
use airplay.Multiroom.Lifecycle.{cleanup, IsClosed, close_slots-IsClosed}
use airplay.Multiroom.Accounts.{held, close_slots-count}
use airplay.Multiroom.Ledger.{Owns}

-- What a cleanup leaves.
abbrev pub Cleaned : Multiroom → ℤ × Multiroom → Type 0
Cleaned s r =
    (r.0 ≡ success)
    × (r.1.locked ≡ false)
    × All IsClosed r.1.slots
    × (r.1.room_added_callback ≡ none)
    × (r.1.room_removed_callback ≡ none)
    × (r.1.sync_callback ≡ none)
    × (r.1.kernel.bad_closes ≡ s.kernel.bad_closes)
    × ((n : ℕ) → count n r.1.kernel.open_fds + held n s.slots ≡ count n s.kernel.open_fds)

pub cleanup_idle :
    (s : Multiroom)
    → s.locked ≡ false
    → s.is_running ≡ false
    → Owns s
    → Returns (Cleaned s) (cleanup s)
unfolding cleanup close_sockets
cleanup_idle s l r o =
    let run_cleanup : cleanup s
        ≡ returns (
          success,
          record s {
            slots = (close_slots s.slots s.kernel).0;
            kernel = (close_slots s.slots s.kernel).1;
            room_added_callback = none;
            room_removed_callback = none;
            sync_callback = none;
            locked = false;
          },
        ) =
      ground (arith, l, r) in
    rw run_cleanup (
      refl,
      refl,
      close_slots-IsClosed s.slots s.kernel,
      refl,
      refl,
      refl,
      (close_slots-count 0 s.slots s.kernel o.covers).1,
      λ n. (close_slots-count n s.slots s.kernel o.covers).0,
    )
