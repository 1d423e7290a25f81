-- ===== src/Sip.antt =====
-- The SIP half of the library.
pub mod Enums
pub mod Status
pub mod Inet
pub mod Parameter
pub mod Address
pub mod Header
pub mod Chain
pub mod Message
pub mod Objects
