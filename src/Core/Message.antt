-- ===== src/Core/Message.antt =====
-- The message types of chat-core/src/protocol.rs.
pub mod Client
pub mod Server
