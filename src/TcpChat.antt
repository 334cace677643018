-- ===== src/TcpChat.antt =====
-- The chat over TCP of cw11/assignment.
pub mod Table
pub mod Messages
pub mod Descriptors
pub mod Accounts
pub mod Names
pub mod Unique
pub mod Delivery
pub mod Client
pub mod Handshake
pub mod Session
mod Tests
