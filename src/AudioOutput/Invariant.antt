-- ===== src/AudioOutput/Invariant.antt =====
-- What holds of the variables of src/audio_output.c between two calls.
use airplay.Base.{ℕ, ◌≤◌, Bool, true, false, Option, none, some, List, [], ◌∷◌, ◌≡◌}
use airplay.AudioOutput.State.{Pcm, Audio}

-- The handles that the module can still give back.
abbrev pub held : Option Pcm → List ℕ
held none = []
held (some p) = p.handle ∷ []

-- The stream is open exactly while the module runs.
abbrev pub Matches : Bool → Option Pcm → Type 0
Matches true (some p) = Unit {0}
Matches false none = Unit {0}
Matches _ _ = ⊥

-- A block of memory is as long as `buffer_size` says.
abbrev pub Fits : Option ℕ → ℕ → Type 0
Fits none n = Unit {0}
Fits (some m) n = m ≡ n

pub record IsSound (s : Audio) : Type 0 where
  pub unlocked : s.locked ≡ false
  pub matched : Matches s.is_running s.pcm_handle
  -- ALSA has given out no other handle
  pub balanced : s.open_pcms ≡ held s.pcm_handle
  pub mixers_closed : s.open_mixers ≡ 0
  pub fits : Fits s.audio_buffer s.buffer_size
  pub large_enough : 1024 ≤ s.buffer_size
  pub small_enough : s.buffer_size ≤ 65536
  pub nothing_queued : s.buffer_write_pos ≡ s.buffer_read_pos
