-- ===== src/Client.antt =====
-- The crate chat-client.
pub mod Usernames
pub mod Messages
pub mod Commands
pub mod Join
pub mod Run
pub mod Main
