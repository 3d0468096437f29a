-- ===== src/Server.antt =====
-- The crate chat-server.
pub mod Dispatcher
pub mod Runtime
pub mod Forwarder
pub mod Pool
pub mod Session
pub mod Run
pub mod Service
pub mod ChatRoom
pub mod Live
pub mod Main
