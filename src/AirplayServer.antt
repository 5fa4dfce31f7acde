-- ===== src/AirplayServer.antt =====
-- src/airplay_server.c and src/airplay_server.h: the server object, its life, one pass of the event
-- loop, and the answers to requests.
pub mod State
pub mod Lifecycle
pub mod Requests
pub mod Process
pub mod Settings
pub mod Info
pub mod Accounts
pub mod Responses
pub mod Accept
pub mod Pass
pub mod Session
pub mod Steps
mod Examples
