-- ===== src/AudioOutput/Buffer.antt =====
-- audio_output_set_buffer_size, _get_buffer_size and _get_available_space.
use airplay.Base.{
  ℕ, ◌+◌, ◌-◌, ◌%◌, Bool, not, ◌||◌, none, ltb, ℤ, success, failure, M, ret, ◌>>=◌, ◌>>◌, get,
  modify, branch, when, Returns, arith,
}
use airplay.AudioOutput.Invariant.{IsSound}
use airplay.AudioOutput.State.{
  Audio, default_buffer_size, size_mod, lock, unlock, allocate, is_some, remainder,
}

-- `first` and `second` say whether the two calls of malloc succeed.
unfoldable pub set_buffer_size : Bool → Bool → ℕ → M Audio ℤ
set_buffer_size first second size = branch (ltb size 1024 || ltb 65536 size) (ret failure) do
  lock
  modify λ s. record s { audio_buffer = none }
  modify λ s. record s { buffer_size = size }
  allocate first size
  when (not first) (do
    modify λ s. record s { buffer_size = default_buffer_size }
    allocate second default_buffer_size)
  s ← get
  branch (not (is_some s.audio_buffer)) (do unlock; ret failure)
      (do modify λ s. record s { buffer_write_pos = 0; buffer_read_pos = 0 }; unlock; ret success)

unfoldable pub get_buffer_size : M Audio ℕ
get_buffer_size = do lock; s ← get; unlock; ret s.buffer_size

-- `size_t` arithmetic: the difference of the positions wraps.
unfoldable pub get_available_space : M Audio ℕ
get_available_space = do
  lock
  s ← get
  used ← remainder ((s.buffer_write_pos + size_mod - s.buffer_read_pos) % size_mod) s.buffer_size
  unlock
  ret ((s.buffer_size + size_mod - used) % size_mod)

-- A change of the buffer's size keeps the invariant, whatever size is asked for and whichever of the two
-- allocations fail.
pub set_buffer_size-IsSound :
    (first second : Bool) (size : ℕ) (s : Audio)
    → IsSound s
    → Returns (λ r. IsSound r.1) (set_buffer_size first second size s)
unfolding set_buffer_size
set_buffer_size-IsSound first second size s v = ground arith
