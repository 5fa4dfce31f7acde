-- ===== src/Daemon/Parts.antt =====
-- The parts of main: its cleanups, and what they find.
use airplay.Base.{◌≡◌, refl, arith, false, none, List, [], ◌∷◌, All, Returns, Returns-eq}
use airplay.Base.Kernel.{Kernel}
use airplay.AudioOutput.Invariant.{IsSound}
use airplay.AudioOutput.Lifecycle.{cleanup as audio_output_cleanup, cleanup-IsSound}
use airplay.VolumeControl.{cleanup as volume_control_cleanup}
use airplay.PlaybackControl.{cleanup as playback_control_cleanup}
use airplay.Multiroom.State.{Slot, close_slots, close_sockets}
use airplay.Multiroom.Lifecycle.{cleanup as multiroom_cleanup, IsClosed}
use airplay.Daemon.State.{Daemon}
use airplay.Daemon.Program.{cleanups}

close_slots-closed :
    (slots : List Slot) (k : Kernel) → All IsClosed slots → (close_slots slots k).1 ≡ k
unfolding close_slots
close_slots-closed [] k h = refl
close_slots-closed (slot ∷ slots) k h = ground (arith, h.0, close_slots-closed slots k h.1)

module _ {F : Type 0} where
  -- The modules between two calls of main: no mutex is taken, and neither a stream nor the multiroom runs.
  pub record IsQuiet (s : Daemon F) : Type 0 where
    pub volume_unlocked : s.volume.locked ≡ false
    pub audio_sound : IsSound s.volume.audio
    pub audio_idle : s.volume.audio.is_running ≡ false
    pub playback_unlocked : s.playback.locked ≡ false
    pub multiroom_unlocked : s.multiroom.locked ≡ false
    pub multiroom_idle : s.multiroom.is_running ≡ false

  -- What is left behind the cleanups.
  abbrev pub Cleaned : Daemon F → Daemon F → Type 0
  Cleaned s t =
      (t.kernel ≡ s.kernel) × (t.volume.audio.audio_buffer ≡ none) × (t.volume.audio.open_pcms ≡ [])

  pub cleanups-Cleaned :
      (s : Daemon F)
      → IsQuiet s
      → All IsClosed s.multiroom.slots
      → Returns (λ r. Cleaned s r.1) (cleanups s)
  unfolding cleanups multiroom_cleanup playback_control_cleanup volume_control_cleanup close_sockets
  cleanups-Cleaned s q c =
      let (r, e, h) =
        Returns-eq _ (audio_output_cleanup s.volume.audio)
          (cleanup-IsSound s.volume.audio q.audio_sound q.audio_idle) in
      ground (arith, e, h, close_slots-closed s.multiroom.slots s.kernel c)
