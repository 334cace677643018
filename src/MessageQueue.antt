-- ===== src/MessageQueue.antt =====
-- The chat over System V message queues of cw07/assignment: server and clients.
pub mod Server
pub mod Registry
pub mod Client
pub mod Inbox
pub mod Delivery
mod Tests
