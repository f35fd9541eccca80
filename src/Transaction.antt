-- ===== src/Transaction.antt =====
-- The library that applications link to, src/Transaction.hh and src/Transaction.cc.
pub mod State
pub mod Calls
pub mod Ending
pub mod Commit
pub mod Undo
pub mod Atomic
pub mod Rollback
pub mod Atomicity
pub mod Disconnect
pub mod Refine
pub mod Retry
pub mod CountCalls
pub mod CountEnding
pub mod Restarts
pub mod Asking
pub mod Held
pub mod Orderly
pub mod OrderlyAllocate
pub mod Client
pub mod Ends
pub mod Allocate
pub mod Dangling
pub mod Faults
pub mod Invalid
pub mod Recover
pub mod CrashRecovery
pub mod Leaves
pub mod Steps
pub mod Parts
pub mod Destroying
pub mod Traceless
pub mod LeavesCalls
