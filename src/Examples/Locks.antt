-- ===== src/Examples/Locks.antt =====
-- Lock requests to a monitor with two transactions: number 1 reads block 7.
use system_t.Monitor.Returns.{Returns}
use system_t.Monitor.Policy.Taking.{WriteTaken, ReadTaken, Refused}
use system_t.Monitor.Keeps.{KeepsInv}
use system_t.Monitor.Locks.{can_read, set_reader, update_status}
use system_t.Monitor.Faults.{committing_reader_dies}
use system_t.Monitor.Replies.{IsSwapped, process_clientrq-swaps}
use system_t.Monitor.Policy.Requests.{
  write_rq-arbitrates, read_rq-arbitrates, release_rq-arbitrates, allocate_rq-arbitrates,
}
use system_t.Monitor.Policy.Evict.{IsDoomed}
use system_t.Monitor.Server.{accept_client}
use mathlib.Core.Path.{subst}
use system_t.Monitor.Safety.{IsServed, process_clientrq-Inv}
use system_t.Base.{ℕ, ◌≡◌, refl, true, [], ◌∷◌, arith, inl, ◌⊎◌}
use system_t.Map.{find, insert, modify}
use system_t.Outcome.{◌>>=◌, returns}
use system_t.Trq.{Request, Trq, begin, read, write, end, ok, die, allocate, release}
use system_t.Monitor.State.{
  Status, begun, reading, committing, Monitor, Tstat, init, preempted, releasing, writing,
  allocated,
}
use system_t.Monitor.Handlers.{
  process_clientrq, answer, write_rq, dispatch, begin_rq, was_preempted, read_rq, release_rq,
  allocate_rq,
}
use system_t.Monitor.Invariant.{Inv, HolderOk, is_known}

abbrev pub first_with : Status → Tstat
first_with s = record { pid = 100; block_no = 7; started = 10; stat = s }

abbrev pub second : Tstat
second = record { pid = 200; block_no = 0; started = 20; stat = begun }

-- Transaction 1 has the given status since time 10, transaction 2 has begun at time 20.
abbrev pub two_with : Status → Monitor
two_with s = record {
  clients = 5 ∷ 4 ∷ [];
  next_tid = 3;
  transactions = (4, 1) ∷ (5, 2) ∷ [];
  status = (1, first_with s) ∷ (2, second) ∷ [];
  blockmap = (7, record { readers = 1 ∷ []; writer = 0 }) ∷ [];
}

pub two_with-Inv : (s : Status) → Inv (two_with s)
unfolding find
two_with-Inv s = record {
  holders = λ k h e.
      let only : record { readers = 1 ∷ []; writer = 0 } ≡ h = ground arith in
      subst (HolderOk (two_with s).status) only
        (record { writer_known = inl refl; readers_known = (refl, tt); exclusive = inl refl });
  ids = λ t h. ground arith;
  sessions = record { issued = λ k t e. ground arith; distinct = λ f g t p q. ground arith };
  started = omega arith;
}

abbrev pub ask : ℕ → ℕ → Request → Trq
ask tid pid r = record { tid = tid; pid = pid; request = r; reply = ok; block_no = 7 }

-- The state is one that the monitor gets into.
two_served :
    (do
      (m₁, _) ← process_clientrq 0 (ask 0 100 begin) 4 10 (accept_client 5 (accept_client 4 init))
      (m₂, _) ← process_clientrq 0 (ask 0 200 begin) 5 20 m₁
      (m₃, _) ← process_clientrq 0 (ask 1 100 read) 4 20 m₂
      returns m₃)
    ≡ returns (two_with reading)
unfolding accept_client init process_clientrq dispatch begin_rq was_preempted find insert read_rq
    can_read set_reader update_status modify
two_served = refl

pub two_with-IsServed : (s : Status) (r : Request) → IsServed 0 r 2 (two_with s)
unfolding find
two_with-IsServed s r = record { room = omega arith; known = λ n. refl; apart = λ n. omega arith }

process_clientrq-Inv_example :
    KeepsInv (process_clientrq 0 (ask 2 200 write) 5 21 (two_with reading))
process_clientrq-Inv_example =
    process_clientrq-Inv 0 (ask 2 200 write) 5 21 (two_with reading) (two_with-Inv reading)
      (two_with-IsServed reading write)

allocate_rq-arbitrates_example :
    Returns
      (λ r.
        WriteTaken (two_with reading) 7 2 21 allocated r
        ⊎ Refused (two_with reading) 7 2 21 allocated r)
      (allocate_rq (ask 2 200 allocate) 21 (two_with reading))
allocate_rq-arbitrates_example =
    allocate_rq-arbitrates (two_with reading) (two_with-Inv reading) (ask 2 200 allocate) 21

release_rq-arbitrates_example :
    Returns
      (λ r.
        WriteTaken (two_with reading) 7 2 21 releasing r
        ⊎ Refused (two_with reading) 7 2 21 releasing r)
      (release_rq (ask 2 200 release) 21 (two_with reading))
release_rq-arbitrates_example =
    release_rq-arbitrates (two_with reading) (two_with-Inv reading) (ask 2 200 release) 21

read_rq-arbitrates_example :
    Returns
      (λ r.
        ReadTaken (two_with reading) 7 2 21 reading r ⊎ Refused (two_with reading) 7 2 21 reading r)
      (read_rq (ask 2 200 read) 21 (two_with reading))
read_rq-arbitrates_example =
    read_rq-arbitrates (two_with reading) (two_with-Inv reading) (ask 2 200 read) 21

write_rq-arbitrates_example :
    Returns
      (λ r.
        WriteTaken (two_with reading) 7 2 21 writing r
        ⊎ Refused (two_with reading) 7 2 21 writing r)
      (write_rq 0 (ask 2 200 write) 21 (two_with reading))
write_rq-arbitrates_example =
    write_rq-arbitrates (two_with reading) (two_with-Inv reading) (ask 2 200 write) 21 0
      (omega arith)

process_clientrq-swaps_example :
    Returns
      (λ (r : Monitor × Trq). IsSwapped (ask 2 200 write) r.1)
      (process_clientrq 0 (ask 2 200 write) 5 21 (two_with reading))
process_clientrq-swaps_example =
    process_clientrq-swaps 0 5 21 (ask 2 200 write) (two_with reading) (two_with-Inv reading)
      (λ e. cc)

pub one-IsDoomed : IsDoomed 1 (two_with preempted)
unfolding find
one-IsDoomed s e = ground arith

pub one_known : (s : Status) → is_known 1 (two_with s).status ≡ true
unfolding find
one_known s = refl

committing_reader_dies_example :
    Returns
      (λ (r : Monitor × Trq).
        (r.1.reply ≡ ok)
        × (process_clientrq 0 (ask 1 100 end) 4 22 r.0 ≡ returns (r.0, answer (ask 1 100 end) die)))
      (write_rq 0 (ask 2 200 write) 21 (two_with committing))
committing_reader_dies_example =
    committing_reader_dies 0 1 4 21 22 (ask 2 200 write) (ask 1 100 end) (two_with committing)
      (first_with committing) (two_with-Inv committing) (omega arith) (omega arith)
      (unfold find in refl) (unfold find in refl) refl refl refl

-- Transaction 2 reads block 7; transaction 1 is older.
abbrev second_reads : Monitor
second_reads = record (two_with begun) {
  blockmap = (7, record { readers = 2 ∷ []; writer = 0 }) ∷ [];
}
