-- ===== src/System.antt =====
-- The two programs together.
pub mod Delivery
pub mod Arrival
pub mod Handshake
pub mod Room
pub mod Screens
pub mod Settling
