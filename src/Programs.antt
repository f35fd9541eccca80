-- ===== src/Programs.antt =====
-- The programs of src/: the test programs, and those that set up and recover the store.
pub mod Serial
pub mod Concurrent
pub mod Traces
pub mod Retries
pub mod Lone
pub mod Mains
pub mod Fresh
pub mod Aborts
