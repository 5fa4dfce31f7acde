-- ===== src/Multiroom/Settings.antt =====
-- The setters and getters of src/multiroom.c.
use airplay.Base.{
  ℕ, Bool, true, false, Option, none, some, ℤ, success, failure, M, ret, ◌>>=◌, ◌>>◌, get, modify,
}
use airplay.Multiroom.State.{MultiroomConfig, Multiroom, lock, unlock}

-- `none` is the null pointer.
abbrev pub set_config : Option MultiroomConfig → M Multiroom ℤ
set_config none = ret failure
set_config (some new_config) = do
  lock
  modify λ s. record s { config = new_config; is_enabled = new_config.enabled }
  unlock
  ret success

-- The argument says whether the pointer is one; the second result is what is written to it.
abbrev pub get_config : Bool → M Multiroom (ℤ × Option MultiroomConfig)
get_config false = ret (failure, none)
get_config true = do lock; s ← get; unlock; ret (success, some s.config)

abbrev pub is_enabled : M Multiroom Bool
is_enabled = do lock; s ← get; unlock; ret s.is_enabled

abbrev pub is_running : M Multiroom Bool
is_running = do lock; s ← get; unlock; ret s.is_running

abbrev pub get_room_count : M Multiroom ℕ
get_room_count = do lock; s ← get; unlock; ret s.room_count

abbrev pub set_sync_delay : ℕ → M Multiroom ℤ
set_sync_delay delay_ms = do
  lock
  modify λ s. record s { sync_delay_ms = delay_ms }
  unlock
  ret success

abbrev pub get_sync_delay : M Multiroom ℕ
get_sync_delay = do lock; s ← get; unlock; ret s.sync_delay_ms

abbrev pub set_room_added_callback : Option ℕ → M Multiroom ℤ
set_room_added_callback callback = do
  lock
  modify λ s. record s { room_added_callback = callback }
  unlock
  ret success

abbrev pub set_room_removed_callback : Option ℕ → M Multiroom ℤ
set_room_removed_callback callback = do
  lock
  modify λ s. record s { room_removed_callback = callback }
  unlock
  ret success

abbrev pub set_sync_callback : Option ℕ → M Multiroom ℤ
set_sync_callback callback = do
  lock
  modify λ s. record s { sync_callback = callback }
  unlock
  ret success
