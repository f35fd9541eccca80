-- ===== src/Examples/Committing.antt =====
-- A monitor in which transaction 1 commits and writes block 7, and transaction 2 runs into it.
use system_t.Base.{ℕ, ◌≡◌, refl, sym, inr, [], ◌∷◌, arith}
use system_t.Monitor.Policy.Evict.{Member}
use system_t.Map.{find, modify}
use system_t.Monitor.Safety.{IsServed}
use system_t.Outcome.{returns}
use system_t.Trq.{write, end, ok, not_ok}
use system_t.Monitor.State.{committing, ended, with_stat, Monitor}
use system_t.Monitor.Locks.{can_write, contest_writer, check_sole_reader}
use system_t.Monitor.Handlers.{process_clientrq, answer, dispatch, was_preempted, write_rq}
use system_t.Monitor.Server.{forget, accept_client}
use system_t.Monitor.Invariant.{Inv, HolderOk}
use system_t.Monitor.Shield.{Writes, IsShielded}
use system_t.Monitor.Committing.{Others, here, connected, served, disconnected, committing_ends}
use system_t.Examples.Locks.{two_with, first_with, ask, two_with-Inv, second}
use mathlib.Core.Path.{subst}

abbrev writing_one : Monitor
writing_one = record (two_with committing) {
  blockmap = (7, record { readers = []; writer = 1 }) ∷ [];
}

abbrev after : Monitor
after = forget 5 2 (accept_client 6 writing_one)

writing_one-Inv : Inv writing_one
unfolding find
writing_one-Inv = record {
  holders = λ k h e.
      let only : record { readers = []; writer = 1 } ≡ h = ground arith in
      subst (HolderOk writing_one.status) only
        (record { writer_known = inr refl; readers_known = tt; exclusive = inr refl });
  ids = (two_with-Inv committing).ids;
  sessions = (two_with-Inv committing).sessions;
  started = (two_with-Inv committing).started;
}

writing_one-IsShielded : IsShielded 1 (λ b. b ≡ 7) writing_one
unfolding find
writing_one-IsShielded = record {
  tstat = first_with committing;
  status = refl;
  commits = refl;
  no_read = λ b h e r.
      let only : record { readers = []; writer = 1 } ≡ h = ground arith in
      subst (λ x. Member 1 x.readers) (sym only) r;
  writes = λ b e. rw e (record { readers = []; writer = 1 }, refl, refl);
}

waits : IsServed 0 write 2 writing_one
unfolding find
waits = record { room = omega arith; known = λ n. refl; apart = λ n. omega arith }

-- Transaction 2 asks for the block and does not get it.
refused :
    process_clientrq 0 (ask 2 200 write) 5 21 writing_one
    ≡ returns (writing_one, answer (ask 2 200 write) not_ok)
unfolding process_clientrq dispatch was_preempted find write_rq can_write contest_writer
    check_sole_reader
refused = refl

run : Others 0 1 writing_one after
unfolding find accept_client
run =
    disconnected {a = accept_client 6 writing_one} 5 2 second
      (connected 6 (
        served (ask 2 200 write) (answer (ask 2 200 write) not_ok) 5 21 here (omega arith) waits
          refused))
      (omega arith) refl refl

committing_ends_example :
    ((b : ℕ) → b ≡ 7 → Writes 1 b after)
    × (process_clientrq 0 (ask 1 100 end) 4 30 after
        ≡ returns (
          record after { status = modify 1 (with_stat ended) after.status },
          answer (ask 1 100 end) ok,
        ))
committing_ends_example =
    committing_ends 0 1 (λ b. b ≡ 7) writing_one after (ask 1 100 end) 4 30 writing_one-Inv
      writing_one-IsShielded run refl refl
