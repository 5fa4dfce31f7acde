-- ===== src/Multiroom/Threads/SyncAudio.antt =====
-- multiroom_sync_audio among the calls of other threads.
use airplay.Base.{ℕ, ◌≡◌, ◌≤◌, pos}
use airplay.Base.Kernel.{Kernel}
use airplay.Base.Descriptors.{count}
use airplay.Multiroom.State.{Slot, Multiroom}

-- A slot whose socket is an open descriptor.
abbrev pub IsOpen : Kernel → Slot → Type 0
IsOpen k slot = (fd : ℕ) × (slot.socket ≡ pos fd) × (1 ≤ count fd k.open_fds)
