-- ===== src/Lib.antt =====
-- A model of System/T, a transaction processing monitor with its client library, and proofs
-- about it.
--
-- The program. A transaction monitor (src/Monitor.cc, a daemon) gives out transaction numbers
-- and grants locks on numbered blocks. Client programs link a library (src/Transaction.cc),
-- which keeps the blocks that a transaction touches in memory and writes them to a shared data
-- store when it commits, after a record of the old value in a shared log (src/LogManager.cc).
-- When a client goes away while it commits, the monitor rolls its transaction back from the log;
-- when the monitor itself went down, the program src/recover.cc undoes all unfinished
-- transactions. A transaction has the upper hand over younger ones, and over those that have
-- held a lock longer than a time slice; the loser is marked as preempted and is told to die at
-- its next request.
--
-- Files and what they model.
--   Config, Trq: src/config.h and src/trq.hh, the constants and the message.
--   Map, Outcome, Base: the ordered map of the program, how a piece of code can end (it returns,
--   it exits, it does what C++ leaves undefined, it has used up its rounds), shared names.
--   Monitor.State, Monitor.Locks, Monitor.Handlers: the class TransactionMonitor. The state is a
--   record with the fields of the class; each member function is a function on it of the same
--   name, and a handler (allocate_rq, read_rq, write_rq, release_rq, abort_rq, commit_rq,
--   restart_rq, end_rq, process_clientrq) returns the new state and the reply that it sends.
--   Monitor.Server: start and client_disconnect, with the messages of the clients as inboxes,
--   and with what select() and accept() answer as arguments. Monitor.Sockets, Loop, Answers,
--   Watched, Turns: its loop over the sockets. Monitor.Returns: properties of an outcome.
--   Monitor.Frame, Rest: the list of clients and the next number through the handlers.
--   Monitor.Readers, Shield, Committing: a transaction that commits, and the requests of others
--   meanwhile. Monitor.Lone, LoneLocks, Session: a client that meets nobody; ask_all is one
--   client's messages in turn.
--   Monitor.Invariant, Grants, Keeps, Safety, Runs, Honest: the invariant of the monitor, and
--   runs of connections, requests and disconnections. Monitor.Policy: who wins a block from
--   whom. Monitor.Doom, Oldest, Flush, Faults, Replies: preempted transactions, the oldest
--   holder, clients that go away, special cases of preemption and rollback, and the fields of
--   the replies.
--   Disk, Log.Manager: the files (store, index, log, log for people) as lists, and the class
--   LogManager: log, undo_rec, write_abort_rec, rollback, doRecovery. Log.Broken, Recovery,
--   Scan, Rollback, Offset: what these do.
--   Transaction.Commit: the writes of Transaction::commit, in order; a process that dies has
--   made a prefix of them. Transaction.Undo, Atomic, Rollback, Atomicity: what undoing such a
--   prefix gives. Transaction.Disconnect: the same when client_disconnect finds it.
--   Transaction.Recover, CrashRecovery: doRecovery after such a prefix, with Log.Restore for
--   undoing in any order. Transaction.State, Calls, Ending: the class Transaction, with its
--   buffers on a heap, an exception that carries the state, and the macros Begin and End; read,
--   write, release, allocate, abort, restart and commit are read_block, write_block,
--   release_block, allocate_block, abort_transaction, restart_transaction and
--   commit_transaction, the destructor is destroy. Transaction.Refine: commit on the buffers
--   makes the writes of Transaction.Commit. Retry, CountCalls, CountEnding, Restarts: how often
--   it restarts. Steps, Parts: the calls, commit and the destructor under any property that
--   their parts have. Leaves, LeavesCalls, Destroying, Traceless: what passes that fail leave in
--   the files. Ends, Allocate: the search for a free block. Dangling, Faults: a write that is
--   denied. Invalid: block numbers that are not positive.
--   Transport.Network, Layer: the class TransportLayer (src/Transport.cc) over an interface of
--   the socket calls. Transport.Image: the 24 bytes of a message. Transport.Messages,
--   Connecting: streams of messages, and connectSocket.
--   Programs.Serial, Concurrent, Mains: the test programs (src/st1.cc to src/st5.cc, src/ct1.cc
--   to src/ct3.cc), the code between Begin and End; and src/initstore.cc, src/recover.cc and
--   src/tpmd.cc. Programs.Traces, Retries, Aborts, Fresh: what the test programs leave in the
--   files, and allocation on a new store. Programs.Lone: the test programs and the monitor
--   together, when nobody else runs; Transaction.Asking, Held, Orderly, OrderlyAllocate, Client:
--   the messages of the library, in_order their order.
--   Examples: concrete states, on which the theorems are applied.
--
-- Choices. Transaction numbers (trid_t) are natural numbers, counted modulo 2 ^ 64 by BEGIN;
-- pids and block numbers are 32 bits. The clock is read once for a request, and its value is an
-- argument. An argument front_of_empty stands for what readers.front() reads from an empty list,
-- which C++ leaves undefined. The loop of rollback takes fuel: one round more than the log has
-- records is enough wherever it ends at all. Offsets in the log are counted in records, and in
-- the store in blocks, as every access is aligned. Reads and writes of files do not fail. The
-- socket calls are a parameter, a record of functions on a state of the network; a stream that
-- delivers what was sent, and the answers of the name server, are hypotheses where a result
-- needs them. The handlers and the loop of the monitor take whole messages from inboxes, not
-- from the transport.
--
-- Not modelled: output on the terminal, I/O errors, and requests with a value outside of the
-- enumeration. In the library a caller passes the content of its own buffers; a read past the
-- end of a file into a fresh buffer counts as a fault, and delete of an array as delete[].
pub mod Base
pub mod Config
pub mod Map
pub mod Outcome
pub mod Trq
pub mod Transport
pub mod Monitor
pub mod Disk
pub mod Log
pub mod Transaction
pub mod Programs
pub mod Examples
