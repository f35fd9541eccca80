-- ===== src/Examples/Crashes.antt =====
-- Crashes, rollback and recovery on a small disk: block 1 is allocated, block 2 is free.
use system_t.Monitor.Returns.{Returns}
use system_t.Monitor.Sockets.{answered, double_client_blocks}
use system_t.Log.Scan.{scan}
use system_t.Monitor.Faults.{commit_then_gone_hangs}
use system_t.Log.Broken.{as_entry, since_stop, find-broken-since_stop}
use mathlib.Core.List.{reverse}
use system_t.Map.{find, modify}
use system_t.Log.Offset.{begins, second_begin_hangs_first}
use system_t.Trq.{commit, ok}
use system_t.Log.Recovery.{aborts, do_recovery-completes}
use system_t.Transaction.Atomicity.{died, commit_undone}
use system_t.Transaction.Undo.{SameData}
use system_t.Transaction.CrashRecovery.{do_recovery-undoes}
use system_t.Examples.Locks.{ask, two_with, first_with, two_with-Inv}
use system_t.Monitor.Flush.{IsGone, client_disconnect-flushes}
use system_t.Monitor.Server.{
  request, closed, Server, client_disconnect, serve_client, Round, serve_clients,
}
use system_t.Monitor.Handlers.{commit_rq, process_clientrq, was_preempted, answer, dispatch}
use system_t.Transaction.Atomic.{AllPending}
use system_t.Log.Manager.{open_log, rollback, LogManager, log, broken, append_record, do_recovery}
use system_t.Log.Rollback.{rollback_hangs, IsRolledBack, rollback-Returns}
use system_t.Monitor.State.{Status, committing, reading}
use system_t.Transaction.Commit.{
  loop_ops, commit_ops, Change, change_ops, writes, run_ops, allocates, run_op,
}
use system_t.Base.{ℕ, ◌<◌, ◌≡◌, refl, ◌≢◌, some, none, [], ◌∷◌, arith, List, ◌≤◌, ◌++◌}
use system_t.Outcome.{running, returns}
use system_t.Disk.{
  Disk, Logrecord, lbegin, allocated, LogAction, lwrite, length, unallocated, lread, write_at,
}

abbrev pub one_block : List Logrecord → Disk
one_block records = record {
  store = (10 ∷ []) ∷ (20 ∷ []) ∷ [];
  index = allocated ∷ unallocated ∷ [];
  log = records;
  alog = [];
}

abbrev pub two_changes : List (ℕ × Change)
two_changes = (1, writes allocated (10 ∷ []) (11 ∷ [])) ∷ (2, allocates (21 ∷ [])) ∷ []

fresh_at_end : open_log.logfd ≡ length (one_block []).log
unfolding open_log
fresh_at_end = refl

two_pending : AllPending (one_block []) two_changes
two_pending = (
  omega arith,
  (refl, refl),
  ((λ e. omega arith), tt),
  (omega arith, (refl, omega arith), tt, tt),
)

four_are_part : 4 ≤ length (loop_ops two_changes)
unfolding loop_ops change_ops
four_are_part = omega arith

died_short :
    length (died 3 4 two_changes open_log (one_block []) fresh_at_end two_pending four_are_part).log
    < 9
unfolding commit_ops run_ops run_op loop_ops change_ops log append_record write_at open_log
died_short = omega arith

commit_undone_example :
    Returns
      (λ (r : LogManager × Disk). SameData (one_block []) r.1)
      (rollback 9 3 open_log
        (died 3 4 two_changes open_log (one_block []) fresh_at_end two_pending four_are_part))
commit_undone_example =
    commit_undone 3 4 two_changes open_log (one_block []) fresh_at_end two_pending four_are_part 9
      open_log died_short

do_recovery-undoes_example :
    Returns
      (λ (r : LogManager × Disk). SameData (one_block []) r.1)
      (do_recovery open_log
        (died 3 4 two_changes open_log (one_block []) fresh_at_end two_pending four_are_part))
do_recovery-undoes_example =
    do_recovery-undoes 3 4 two_changes open_log (one_block []) fresh_at_end two_pending
      four_are_part open_log (unfold broken in refl)

abbrev note : LogAction → ℕ → Logrecord
note a t = record { tid = t; action = a; block = 1; oindex = allocated; oldval = 12 ∷ [] }

-- Transaction 3 has begun to commit and has logged a write to block 1.
abbrev begun_write : Disk
begun_write = one_block (note lbegin 3 ∷ note lwrite 3 ∷ note lread 8 ∷ [])

scan_begun_write :
    scan 3 (reverse begun_write.log) ≡ some (some (note lwrite 3 ∷ note lbegin 3 ∷ []))
unfolding scan
scan_begun_write = refl

rollback-Returns_example :
    Returns
      (λ (r : LogManager × Disk).
        IsRolledBack 3 (note lwrite 3 ∷ note lbegin 3 ∷ []) begun_write r.1)
      (rollback 5 3 open_log begun_write)
rollback-Returns_example =
    rollback-Returns 3 5 open_log begun_write (some (note lwrite 3 ∷ note lbegin 3 ∷ []))
      (omega arith) scan_begun_write

find-broken-since_stop_example :
    find 3 (broken [] begun_write.log) ≡ as_entry (since_stop 3 begun_write.log)
find-broken-since_stop_example = find-broken-since_stop 3 begun_write.log

do_recovery-completes_example :
    Returns
      (λ (r : LogManager × Disk).
        (r.1.log ≡ begun_write.log ++ aborts (broken [] begun_write.log))
        × ((l' : LogManager) → do_recovery l' r.1 ≡ returns (l', r.1)))
      (do_recovery open_log begun_write)
do_recovery-completes_example = do_recovery-completes open_log begun_write

scan_other : scan 4 (reverse begun_write.log) ≡ none
unfolding scan
scan_other = refl

some_log : begun_write.log ≢ []
some_log e = cc

rollback_hangs_example : rollback 1000 4 open_log begun_write ≡ running
rollback_hangs_example = rollback_hangs 4 1000 open_log begun_write some_log scan_other

second_begin_hangs_first_example :
    rollback 50 3 open_log (begins 4 (begins 3 (one_block []))) ≡ running
second_begin_hangs_first_example =
    second_begin_hangs_first 3 4 50 open_log (one_block []) (λ e. omega arith) refl

-- A server with transactions 1 and 2, the first with the given status.
abbrev serving : Status → Disk → Server
serving s d = record { monitor = two_with s; logger = open_log; disk = d }

owns_first : (s : Status) → find 4 (two_with s).transactions ≡ some 1
unfolding find
owns_first s = refl

status_first : (s : Status) → find 1 (two_with s).status ≡ some (first_with s)
unfolding find
status_first s = refl

client_disconnect-flushes_example :
    Returns
      (IsGone 5 4 1
        (serving reading begun_write)
        (first_with reading)
        (two_with-Inv reading)
        (owns_first reading)
        (status_first reading)
        (open_log, begun_write))
      (client_disconnect 5 4 (serving reading begun_write))
client_disconnect-flushes_example =
    client_disconnect-flushes 5 4 1 (serving reading begun_write) (first_with reading)
      (two_with-Inv reading) (owns_first reading) (status_first reading) (λ e. cc)

-- Transaction 1 dies after BEGIN and four more writes.
abbrev first_died : Disk
first_died = died 1 4 two_changes open_log (one_block []) fresh_at_end two_pending four_are_part

scan_first : scan 1 (reverse begun_write.log) ≡ none
unfolding scan
scan_first = refl

commit_then_gone_hangs_example :
    ((commit_rq (ask 1 100 commit) (two_with reading)).1.reply ≡ ok)
    × (client_disconnect 99 4 (record (serving reading begun_write) {
      monitor = (commit_rq (ask 1 100 commit) (two_with reading)).0;
    })
        ≡ running)
commit_then_gone_hangs_example =
    commit_then_gone_hangs 99 4 (ask 1 100 commit) (serving reading begun_write)
      (first_with reading) (owns_first reading) (status_first reading) some_log scan_first

-- The descriptor 4 was closed and given out again; a request to commit waits on it.
abbrev reused : Round
reused = record {
  server = serving reading begun_write;
  everyone = 5 ∷ 4 ∷ 3 ∷ [];
  maxfd = 5;
  inbox = (4, request (ask 1 100 commit) ∷ []) ∷ (5, closed ∷ []) ∷ [];
  sent = [];
}

reused_commits :
    process_clientrq 0 (ask 1 100 commit) 4 30 (two_with reading)
    ≡ returns (two_with committing, answer (ask 1 100 commit) ok)
unfolding process_clientrq was_preempted dispatch commit_rq find modify
reused_commits = refl

double_client_blocks_example :
    (serve_client 0 9 30 4 reused
      ≡ returns (answered 4 (two_with committing) (answer (ask 1 100 commit) ok) [] reused))
    × (serve_clients 0 9 30 (4 ∷ 5 ∷ []) (6 ∷ 4 ∷ 7 ∷ 4 ∷ 5 ∷ []) 2 reused ≡ running)
double_client_blocks_example =
    double_client_blocks 0 9 30 4 2 (4 ∷ 5 ∷ []) (6 ∷ []) (7 ∷ []) (5 ∷ []) reused
      (ask 1 100 commit) (answer (ask 1 100 commit) ok) (two_with committing) (refl, tt) (refl, tt)
      refl (omega arith) (unfold find in refl) reused_commits
