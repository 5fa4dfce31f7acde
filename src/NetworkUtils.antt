-- ===== src/NetworkUtils.antt =====
-- src/network_utils.c and src/network_utils.h.
pub mod Sockets
pub mod Interfaces
pub mod Mac
pub mod Discovery
pub mod Packets
pub mod Accounts
mod Examples
