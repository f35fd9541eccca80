-- ===== src/Monitor/Handlers.antt =====
-- src/Monitor.cc, the request handlers. A handler returns the new monitor and the reply that it
-- sends to the client; messages on the terminal are left out.
use system_t.Base.{ℕ, ◌+◌, ◌%◌, Bool, true, false, none, some, ◌==◌, if◌then◌else◌}
use system_t.Map.{find, insert, erase, modify, map_values}
use system_t.Config.{trid_mod}
use system_t.Outcome.{Outcome, returns, ◌>>=◌}
use system_t.Trq.{
  Request, Reply, Trq, begin, commit, end, read, write, abort, allocate, release, restart, ok,
  not_ok, die, pid_of_tid, tid_of_pid,
}
use system_t.Monitor.State.{
  Status, begun, reading, writing, allocated, releasing, aborting, restarting, committing, ended,
  Blockholders, Monitor, is_committing, is_preempted, with_stat, with_writer,
}
use system_t.Monitor.Locks.{
  remove, update_status, can_read, can_write, set_writer, set_reader, check_sole_reader,
  remove_reader,
}

-- { rq.pid, rq.tid, rq.request, r, rq.block_no }: the initialiser puts the pid in the field `tid`
-- and the tid in the field `pid`.
unfoldable pub answer : Trq → Reply → Trq
answer rq r = record {
  tid = tid_of_pid rq.pid;
  pid = pid_of_tid rq.tid;
  request = rq.request;
  reply = r;
  block_no = rq.block_no;
}

unfoldable pub allocate_rq : Trq → ℕ → Monitor → Outcome (Monitor × Trq)
allocate_rq rq now m = do
  (granted, m₁) ← can_write rq.tid rq.block_no now m
  if granted
      then returns (
        update_status rq.tid rq.block_no allocated (set_writer rq.block_no rq.tid m₁),
        answer rq ok,
      )
      else returns (m₁, answer rq not_ok)

unfoldable pub read_rq : Trq → ℕ → Monitor → Outcome (Monitor × Trq)
read_rq rq now m = do
  (granted, m₁) ← can_read rq.tid rq.block_no now m
  if granted
      then returns (
        update_status rq.tid rq.block_no reading (set_reader rq.block_no rq.tid m₁),
        answer rq ok,
      )
      else returns (m₁, answer rq not_ok)

-- A sole reader is upgraded without asking can_write.
unfoldable pub write_rq : ℕ → Trq → ℕ → Monitor → Outcome (Monitor × Trq)
write_rq front_of_empty rq now m =
    let sole_reader = check_sole_reader front_of_empty rq.tid rq.block_no m in
    (do
      (granted, m₁) ←
          (if sole_reader then returns (true, m) else can_write rq.tid rq.block_no now m)
      if granted
          then (let m₂ = (if sole_reader then remove_reader rq.block_no rq.tid m₁ else m₁) in
              returns (
                update_status rq.tid rq.block_no writing (set_writer rq.block_no rq.tid m₂),
                answer rq ok,
              ))
          else returns (m₁, answer rq not_ok))

unfoldable pub release_rq : Trq → ℕ → Monitor → Outcome (Monitor × Trq)
release_rq rq now m = do
  (granted, m₁) ← can_write rq.tid rq.block_no now m
  if granted
      then returns (
        update_status rq.tid rq.block_no releasing (set_writer rq.block_no rq.tid m₁),
        answer rq ok,
      )
      else returns (m₁, answer rq not_ok)

-- The part that abort_rq, commit_rq and restart_rq share: record the new status.
unfoldable pub note_status : Status → Trq → Monitor → Monitor × Trq
note_status s rq m = elim (find rq.tid m.status) [
  | none ↦ (m, answer rq not_ok)
  | some p ↦ (record m { status = modify rq.tid (with_stat s) m.status }, answer rq ok)
]

unfoldable pub abort_rq : Trq → Monitor → Monitor × Trq
unfolding note_status
abort_rq = note_status aborting

unfoldable pub commit_rq : Trq → Monitor → Monitor × Trq
unfolding note_status
commit_rq = note_status committing

unfoldable pub restart_rq : Trq → Monitor → Monitor × Trq
unfolding note_status
restart_rq = note_status restarting

unfoldable pub end_rq : Trq → Monitor → Monitor × Trq
end_rq rq m = elim (find rq.tid m.status) [
  | none ↦ (m, answer rq not_ok)
  | some p ↦
      if is_committing p.stat
      then (record m { status = modify rq.tid (with_stat ended) m.status }, answer rq ok)
      else (m, answer rq not_ok)
]

-- The case BEGIN of the switch: a new transaction for the client `who`.
unfoldable pub begin_rq : Trq → ℕ → ℕ → Monitor → Monitor × Trq
begin_rq t who now m =
    let tid = m.next_tid in
    (
      record m {
        next_tid = (tid + 1) % trid_mod;
        transactions = insert who tid m.transactions;
        status =
            insert tid (record { pid = t.pid; block_no = 0; started = now; stat = begun }) m.status;
      },
      record { tid = tid; pid = t.pid; request = t.request; reply = ok; block_no = 0 },
    )

-- Was the sender of this message preempted?
unfoldable pub was_preempted : ℕ → Monitor → Bool
was_preempted tid m = elim (find tid m.status) [ none ↦ false | some p ↦ is_preempted p.stat ]

-- The switch of process_clientrq.
unfoldable pub dispatch : ℕ → Request → Trq → ℕ → ℕ → Monitor → Outcome (Monitor × Trq)
dispatch front_of_empty begin t who now m = returns (begin_rq t who now m)
dispatch front_of_empty allocate t who now m = allocate_rq t now m
dispatch front_of_empty read t who now m = read_rq t now m
dispatch front_of_empty write t who now m = write_rq front_of_empty t now m
dispatch front_of_empty release t who now m = release_rq t now m
dispatch front_of_empty restart t who now m = returns (restart_rq t m)
dispatch front_of_empty abort t who now m = returns (abort_rq t m)
dispatch front_of_empty commit t who now m = returns (commit_rq t m)
dispatch front_of_empty end t who now m = returns (end_rq t m)

abbrev pub is_begin : Request → Bool
is_begin begin = true
is_begin _ = false

unfoldable pub process_clientrq : ℕ → Trq → ℕ → ℕ → Monitor → Outcome (Monitor × Trq)
process_clientrq front_of_empty t who now m =
    if is_begin t.request
    then dispatch front_of_empty t.request t who now m
    else if was_preempted t.tid m
    then returns (m, answer t die)
    else dispatch front_of_empty t.request t who now m

-- What the loop of flush_transaction does to one block.
abbrev pub drop_holder : ℕ → Blockholders → Blockholders
drop_holder tid h =
    if h.writer == tid then with_writer 0 h else record h { readers = remove tid h.readers }

unfoldable pub flush_transaction : ℕ → Monitor → Monitor
flush_transaction tid m = elim (find tid m.status) [
  | none ↦ m
  | some p ↦ record m {
    blockmap = map_values (drop_holder tid) m.blockmap;
    status = erase tid m.status;
  }
]
