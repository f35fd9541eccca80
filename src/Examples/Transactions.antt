-- ===== src/Examples/Transactions.antt =====
-- Transaction 3 on the small disk: it writes block 1, whose old value is 10, and allocates block 2.
use system_t.Transaction.CountCalls.{release_block-Counts}
use system_t.Transaction.Ends.{Ends}
use system_t.Transaction.Allocate.{IsAllocated, allocate_block-Ends}
use system_t.Transaction.Commit.{commit_ops}
use system_t.Transaction.Restarts.{begin_end-stops}
use system_t.Examples.Crashes.{two_changes, one_block}
use system_t.Transaction.Faults.{was_read, denied_write_frees_twice}
use system_t.Transaction.Calls.{release_block, write_block, allocate_block}
use system_t.Log.Manager.{open_log}
use system_t.Transaction.Invalid.{committed, invalid_block_commits}
use system_t.Transaction.Refine.{LetsCommit, changes, as_change, commit_transaction-after, after}
use system_t.Transaction.State.{
  Mblock, Transaction, gives, w_lock, deref, delete, throws, spins, a_lock, te_restart, te_abort,
  faults,
}
use system_t.Transaction.Ending.{
  leave_scope, free_blocks, begin_end, commit_transaction, free_pointer, destroy,
}
use system_t.Base.{◌≡◌, refl, ◌≢◌, false, some, [], ◌∷◌, arith, List}
use system_t.Map.{Map, find, erase}
use system_t.Trq.{Reply, Trq, ok, not_ok, commit}
use system_t.Disk.{allocated, unallocated, Block}

-- The replies of the monitor are given.
abbrev at_work : Map Mblock → Map Block → List Trq → Transaction
at_work bm buffers replies = record {
  tid = 3;
  pid = 300;
  error_occured = false;
  last_sleep = 0;
  last_free_block = 2;
  blockmap = bm;
  heap = record { buffers = buffers; fresh = 9 };
  logger = open_log;
  disk = one_block [];
  replies = replies;
  sent = [];
}

abbrev says : Reply → Trq
says r = record { tid = 300; pid = 3; request = commit; reply = r; block_no = 0 }

abbrev two_blocks : Map Mblock
two_blocks =
    (1, record { lock = w_lock; data_ = some 6; oldval = some 5; oldindex = allocated })
    ∷ (2, record { lock = a_lock; data_ = some 7; oldval = some 7; oldindex = unallocated })
    ∷ []

abbrev buffers : Map Block
buffers = (5, 10 ∷ []) ∷ (6, 11 ∷ []) ∷ (7, 21 ∷ []) ∷ []

-- About to commit.
abbrev ready : Transaction
ready = at_work two_blocks buffers (says ok ∷ says ok ∷ [])

ready_changes : changes ready.blockmap ready.heap ≡ some two_changes
unfolding changes as_change deref find
ready_changes = refl

ready-LetsCommit : LetsCommit ready []
ready-LetsCommit = record {
  first = says ok;
  last = says ok;
  replies = refl;
  commit_ok = refl;
  end_ok = refl;
}

commit_transaction-after_example :
    commit_transaction ready ≡ gives tt (committed two_changes [] ready)
commit_transaction-after_example =
    commit_transaction-after ready two_changes [] ready_changes ready-LetsCommit

-- The state after the destructor of an aborted transaction that was committed all the same.
abbrev gone : Transaction
gone = record (committed two_changes [] ready) { heap = record { buffers = []; fresh = 9 } }

ready_frees : free_blocks two_blocks (committed two_changes [] ready) ≡ gives tt gone
unfolding free_blocks free_pointer delete find erase
ready_frees = refl

invalid_block_commits_example :
    (leave_scope (release_block 0 ready) ≡ throws te_abort gone)
    × (gone.disk ≡ (after (commit_ops two_changes) ready).disk)
invalid_block_commits_example =
    invalid_block_commits 0 two_changes [] ready gone refl refl ready_changes ready-LetsCommit
      ready_frees

-- Block 1 was read into buffer 5; the monitor denies a write and lets the transaction restart.
abbrev reader : Transaction
reader = at_work ((1, was_read 5 allocated) ∷ []) ((5, 10 ∷ []) ∷ []) (says not_ok ∷ says ok ∷ [])

denied_write_frees_twice_example :
    (s' : Transaction) × (write_block 1 (0 ∷ []) (11 ∷ []) reader ≡ throws te_restart s')
    × (destroy s' ≡ faults)
denied_write_frees_twice_example =
    denied_write_frees_twice 1 5 allocated (10 ∷ []) (0 ∷ []) (11 ∷ []) reader (says not_ok)
      (says ok) [] refl (omega arith) (unfold find in refl) (unfold find in refl) refl refl refl
      refl (omega arith)

-- The code between Begin and End releases block 1.
begin_end-stops_example : begin_end 7 (release_block 1) reader ≢ spins
begin_end-stops_example =
    begin_end-stops (release_block 1) (release_block-Counts 1) 7 reader (omega arith) (omega arith)

-- Nothing is in memory yet, and block 1 is taken: block 2 is found.
abbrev empty_handed : Transaction
empty_handed = record (at_work [] [] (says not_ok ∷ says ok ∷ [])) { last_free_block = 0 }

allocate_block-Ends_example : Ends (IsAllocated empty_handed) (allocate_block 3 empty_handed)
allocate_block-Ends_example = allocate_block-Ends 3 empty_handed (omega arith)
