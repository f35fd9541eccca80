-- ===== src/Transport.antt =====
-- src/Transport.hh and src/Transport.cc: messages over TCP.
pub mod Image
pub mod Network
pub mod Layer
pub mod Messages
pub mod Connecting
