-- ===== src/Monitor/Policy.antt =====
-- Who wins a block: the vocabulary of the arbitration between transactions, of which a younger one
-- has a higher number.
pub mod Evict
pub mod Verdict
pub mod Readers
pub mod Decide
pub mod Entries
pub mod Taking
pub mod Requests
pub mod ReaderList
