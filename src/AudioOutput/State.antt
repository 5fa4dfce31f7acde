-- ===== src/AudioOutput/State.antt =====
-- The static variables of src/audio_output.c as one record, with what the module holds of ALSA.
-- What ALSA and malloc answer in a call is an argument of the call.
use airplay.Base.{
  ℕ, ◌*◌, ◌/◌, ◌%◌, ◌^◌, Bool, true, false, Option, none, some, List, [], ◌∷◌, ◌==◌, if◌then◌else◌,
  ℤ, returns, blocks, faults, M, modify,
}

-- `uint8_t` and `uint32_t` fields are numbers; `device_name` is the string's bytes.
pub record AudioConfig : Type 0 where
  pub sample_rate : ℕ
  pub channels : ℕ
  pub bits_per_sample : ℕ
  pub device_name : List ℕ
  pub use_hw_volume : Bool

pub data PcmFormat : Type 0 where
  s8 s16_le s24_le s32_le : PcmFormat

-- An open PCM: ALSA's handle, with the format and channels it was set up with.
pub record Pcm : Type 0 where
  pub handle : ℕ
  pub format : PcmFormat
  pub channels : ℕ

-- `audio_buffer` is the size of the block it points to. `open_pcms` are the handles that ALSA has
-- given out and not been given back, `open_mixers` counts the mixers, and `mixer_volumes` are
-- the volumes written to the "Master" element, newest first.
pub record Audio : Type 0 where
  pub locked : Bool
  pub pcm_handle : Option Pcm
  pub current_config : AudioConfig
  pub is_running : Bool
  pub audio_buffer : Option ℕ
  pub buffer_size : ℕ
  pub buffer_write_pos : ℕ
  pub buffer_read_pos : ℕ
  pub open_pcms : List ℕ
  pub open_mixers : ℕ
  pub mixer_volumes : List ℤ

abbrev pub default_sample_rate : ℕ
default_sample_rate = 44100

abbrev pub default_channels : ℕ
default_channels = 2

abbrev pub default_bits_per_sample : ℕ
default_bits_per_sample = 16

abbrev pub default_buffer_size : ℕ
default_buffer_size = 4096

-- "default"
abbrev pub default_device : List ℕ
default_device = 100 ∷ 101 ∷ 102 ∷ 97 ∷ 117 ∷ 108 ∷ 116 ∷ []

-- size_t has 32 bits on the targets, MIPS 24Kc and ARM.
abbrev pub size_mod : ℕ
size_mod = 2 ^ 32

-- The static initialisers.
abbrev pub at_load : Audio
at_load = record {
  locked = false;
  pcm_handle = none;
  current_config = record {
    sample_rate = 0;
    channels = 0;
    bits_per_sample = 0;
    device_name = [];
    use_hw_volume = false;
  };
  is_running = false;
  audio_buffer = none;
  buffer_size = default_buffer_size;
  buffer_write_pos = 0;
  buffer_read_pos = 0;
  open_pcms = [];
  open_mixers = 0;
  mixer_volumes = [];
}

-- pthread_mutex_lock on a plain mutex: a thread that holds it already waits for ever.
abbrev pub lock : M Audio (Unit {0})
lock s = elim s.locked [ true ↦ blocks | false ↦ returns (tt, record s { locked = true }) ]

abbrev pub unlock : M Audio (Unit {0})
unlock = modify λ s. record s { locked = false }

-- malloc of `n` bytes into `audio_buffer`; `granted` says whether it succeeds.
abbrev pub allocate : Bool → ℕ → M Audio (Unit {0})
allocate granted n = modify λ s. record s { audio_buffer = if granted then some n else none }

abbrev pub is_some {ℓ} : {A : Type ℓ} → Option A → Bool
is_some none = false
is_some (some a) = true

-- The handle without its first occurrence: what snd_pcm_close does to the open handles.
abbrev pub without : ℕ → List ℕ → List ℕ
without h [] = []
without h (x ∷ xs) = if x == h then xs else x ∷ without h xs

-- `snd_pcm_close(pcm_handle); pcm_handle = NULL;`
unfoldable pub close_pcm : M Audio (Unit {0})
close_pcm = modify λ s. record s {
  open_pcms = elim s.pcm_handle [ none ↦ s.open_pcms | some p ↦ without p.handle s.open_pcms ];
  pcm_handle = none;
}

-- C's division: by zero it is undefined.
abbrev pub divide : ℕ → ℕ → M Audio ℕ
divide a b s = elim (b == 0) [ true ↦ faults | false ↦ returns (a / b, s) ]

-- C's remainder, likewise.
abbrev pub remainder : ℕ → ℕ → M Audio ℕ
remainder a b s = elim (b == 0) [ true ↦ faults | false ↦ returns (a % b, s) ]

-- Bytes to a frame, as the code counts them. The product is an `int`, at most 255 * 255.
abbrev pub frame_bytes : AudioConfig → ℕ
frame_bytes c = c.channels * c.bits_per_sample / 8
