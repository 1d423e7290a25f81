-- ===== src/Sdp.antt =====
-- Session descriptions: src/sdp.cpp and src/sdp_headers.cpp.
pub mod Types
pub mod Attribute
pub mod Header
pub mod Session
pub mod Objects
