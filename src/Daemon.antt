-- ===== src/Daemon.antt =====
-- src/main.c: the state, main up to its first init, main behind it, and what holds of them.
pub mod State
pub mod Startup
pub mod Program
pub mod Options
pub mod Parts
pub mod Shutdown
pub mod Served
pub mod Failed
pub mod Inits
mod Main
mod Examples
