-- ===== src/Log.antt =====
-- The log manager, src/LogManager.hh and src/LogManager.cc.
pub mod Manager
pub mod Broken
pub mod Recovery
pub mod Restore
pub mod Scan
pub mod Rollback
pub mod Offset
