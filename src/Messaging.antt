-- ===== src/Messaging.antt =====
-- The messaging package (messaging/).
pub mod Message
pub mod Connection
pub mod Dial
