-- ===== src/Examples.antt =====
-- Concrete states of the program, and what the code does on them.
pub mod Locks
pub mod Crashes
pub mod Committing
pub mod Session
pub mod Lone
pub mod Honest
pub mod Loop
pub mod Streams
pub mod Programs
pub mod Transactions
