-- ===== src/UdpChat.antt =====
-- The UDP chat of cw12/assignment: the server (server.c) and its client (client.c).
pub mod Table
pub mod Messages
pub mod Changes
pub mod Ping
pub mod WellFormed
pub mod Registration
pub mod Names
pub mod Lookup
pub mod Delivery
pub mod Bounds
pub mod Survival
pub mod Client
pub mod KeepAlive
pub mod Handshake
pub mod ClientLoops
mod Tests
