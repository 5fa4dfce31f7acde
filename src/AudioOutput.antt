-- ===== src/AudioOutput.antt =====
-- src/audio_output.c and src/audio_output.h: the static state, a file for each group of functions
-- with what is proved of it, and the mutex over all of them.
pub mod State
pub mod Invariant
pub mod Lifecycle
pub mod Start
pub mod Write
pub mod Mixer
pub mod Buffer
pub mod Stream
pub mod Calls
pub mod Playable
pub mod Sessions
pub mod Reconfigured
mod Examples
