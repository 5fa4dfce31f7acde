-- ===== src/Multiroom.antt =====
-- src/multiroom.c and src/multiroom.h: the static state, a file for each group of functions, and the
-- list of room names as their abstract view.
pub mod State
pub mod Lifecycle
pub mod Settings
pub mod Rooms
pub mod Sync
pub mod Names
pub mod Accounts
pub mod Requests
pub mod LongNames
pub mod RoundTrip
pub mod Ledger
pub mod Threads
pub mod AddRoom
pub mod RemoveRoom
pub mod Examples
mod Runs
