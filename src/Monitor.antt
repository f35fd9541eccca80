-- ===== src/Monitor.antt =====
-- The transaction monitor, src/Monitor.hh and src/Monitor.cc.
pub mod State
pub mod Locks
pub mod Handlers
pub mod Server
pub mod Readers
pub mod Shield
pub mod Committing
pub mod Lone
pub mod LoneLocks
pub mod Session
pub mod Loop
pub mod Turns
pub mod Honest
pub mod Watched
pub mod Answers
pub mod Frame
pub mod Rest
pub mod Invariant
pub mod Returns
pub mod Grants
pub mod Keeps
pub mod Safety
pub mod Policy
pub mod Flush
pub mod Doom
pub mod Oldest
pub mod Faults
pub mod Replies
pub mod Runs
pub mod Sockets
