-- ===== src/Core.antt =====
-- The crate chat-core.
pub mod Error
pub mod Bincode
pub mod Message
pub mod MessageCache
pub mod Protocol
pub mod Stream
pub mod Transport
pub mod Utils
