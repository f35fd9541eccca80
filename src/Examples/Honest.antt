-- ===== src/Examples/Honest.antt =====
-- Two clients that give their own numbers to the monitor.
use system_t.Base.{◌≡◌, refl, ◌≢◌, arith}
use system_t.Map.{find, insert, modify}
use system_t.Outcome.{returns}
use system_t.Trq.{begin, read, ok, die}
use system_t.Monitor.State.{Monitor, init, reading, preempted}
use system_t.Monitor.Locks.{can_read, set_reader, update_status}
use system_t.Monitor.Handlers.{process_clientrq, dispatch, begin_rq, was_preempted, read_rq, answer}
use system_t.Monitor.Server.{accept_client, forget}
use system_t.Monitor.Honest.{
  HonestRun, at_start, connects, begins, asks, leaves, IsSound, IsNoNumber, HonestRun-IsSound,
  preempted_for_good,
}
use system_t.Examples.Locks.{two_with, two_with-Inv, ask, one-IsDoomed, one_known}

zero-IsNoNumber : IsNoNumber 0
zero-IsNoNumber t pos low e = omega arith

abbrev both_connected : Monitor
both_connected = accept_client 5 (accept_client 4 init)

abbrev one_begun : Monitor
one_begun = (begin_rq (ask 0 100 begin) 4 10 both_connected).0

abbrev both_begun : Monitor
both_begun = (begin_rq (ask 0 200 begin) 5 20 one_begun).0

one_begins :
    process_clientrq 0 (ask 0 100 begin) 4 10 both_connected
    ≡ returns (begin_rq (ask 0 100 begin) 4 10 both_connected)
unfolding process_clientrq dispatch
one_begins = refl

two_begins :
    process_clientrq 0 (ask 0 200 begin) 5 20 one_begun
    ≡ returns (begin_rq (ask 0 200 begin) 5 20 one_begun)
unfolding process_clientrq dispatch
two_begins = refl

one_reads :
    process_clientrq 0 (ask 1 100 read) 4 20 both_begun
    ≡ returns (two_with reading, answer (ask 1 100 read) ok)
unfolding accept_client init process_clientrq dispatch begin_rq was_preempted find insert read_rq
    can_read set_reader update_status modify
one_reads = refl

-- Both begin, the first reads block 7, and the second goes away.
run : HonestRun 0 (λ t. Unit {0}) init 2 (forget 5 2 (two_with reading))
unfolding accept_client init begin_rq find insert
run =
    leaves 5 2
      (asks (ask 1 100 read) (answer (ask 1 100 read) ok) 4 20
        (begins (ask 0 200 begin) _ 5 20
          (begins (ask 0 100 begin) _ 4 10 (connects 5 (connects 4 at_start)) refl one_begins) refl
          two_begins)
        (λ e. cc) refl one_reads)
      tt refl

HonestRun-IsSound_example : IsSound (forget 5 2 (two_with reading))
HonestRun-IsSound_example = HonestRun-IsSound zero-IsNoNumber (omega arith) run

two_with-IsSound : IsSound (two_with preempted)
unfolding find
two_with-IsSound = record { inv = two_with-Inv preempted; sessions = λ fd t e. ground arith }

abbrev both_read : Monitor
both_read = update_status 2 7 reading (set_reader 7 2 (two_with preempted))

two_reads :
    process_clientrq 0 (ask 2 200 read) 5 21 (two_with preempted)
    ≡ returns (both_read, answer (ask 2 200 read) ok)
unfolding process_clientrq dispatch was_preempted find read_rq can_read
two_reads = refl

-- Transaction 1 is preempted; transaction 2 reads the block and leaves.
run_after_preemption : HonestRun 0 (λ t. t ≢ 1) (two_with preempted) 0 (forget 5 2 both_read)
unfolding find set_reader update_status
run_after_preemption =
    leaves 5 2
      (asks (ask 2 200 read) (answer (ask 2 200 read) ok) 5 21 at_start (λ e. cc) refl two_reads)
      (λ e. omega arith) refl

preempted_for_good_example :
    process_clientrq 0 (ask 1 100 read) 4 30 (forget 5 2 both_read)
    ≡ returns (forget 5 2 both_read, answer (ask 1 100 read) die)
preempted_for_good_example =
    preempted_for_good 0 1 4 30 0 (ask 1 100 read) (two_with preempted) (forget 5 2 both_read)
      two_with-IsSound zero-IsNoNumber (omega arith) one-IsDoomed (one_known preempted)
      run_after_preemption refl (λ e. cc)
