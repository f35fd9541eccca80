-- ===== src/Transaction/Commit.antt =====
-- Transaction::commit of src/Transaction.cc: what the loop over the block map writes, in order, to
-- the log, the index and the store. A process that dies has made a prefix of these writes.
use system_t.Base.{ℕ, Option, none, some, List, [], ◌∷◌, ◌++◌}
use system_t.Disk.{
  Block, blank, allocated, unallocated, LogAction, lread, lwrite, lallocate, lrelease, lbegin, lend,
  Disk,
}
use system_t.Log.Manager.{LogManager, log, put_store, put_index}

-- One system call of commit: a log record, a byte of the index, or a block of the store.
pub data DiskOp : Type 0 where
  log_op : LogAction → ℕ → ℕ → Option Block → DiskOp
  index_op : ℕ → ℕ → DiskOp
  store_op : ℕ → Block → DiskOp

-- An entry of the block map at commit, with the blocks that its pointers lead to: allocated here,
-- written (with the old index byte and the old value), released (the same), or only read.
pub data Change : Type 0 where
  allocates : Block → Change
  writes : ℕ → Block → Block → Change
  releases : ℕ → Block → Change
  reads : Change

-- The switch in the loop.
unfoldable pub change_ops : ℕ → Change → List DiskOp
change_ops b (allocates v) =
    log_op lallocate b blank none ∷ index_op b allocated ∷ store_op b v ∷ []
change_ops b (writes oindex old v) = log_op lwrite b oindex (some old) ∷ store_op b v ∷ []
change_ops b (releases oindex old) =
    log_op lrelease b oindex (some old) ∷ index_op b unallocated ∷ []
change_ops b reads = log_op lread b blank none ∷ []

-- The loop.
unfoldable pub loop_ops : List (ℕ × Change) → List DiskOp
loop_ops [] = []
loop_ops ((b, c) ∷ rest) = change_ops b c ++ loop_ops rest

abbrev pub begin_op : DiskOp
begin_op = log_op lbegin 0 blank none

abbrev pub end_op : DiskOp
end_op = log_op lend 0 blank none

-- All that commit writes between its COMMIT and its END request.
unfoldable pub commit_ops : List (ℕ × Change) → List DiskOp
unfolding loop_ops change_ops
commit_ops changes = begin_op ∷ loop_ops changes ++ end_op ∷ []

unfoldable pub run_op : ℕ → DiskOp → LogManager → Disk → LogManager × Disk
run_op tid (log_op action b oindex old) l d = log tid action b oindex old l d
run_op tid (index_op b c) l d = (l, put_index b c d)
run_op tid (store_op b v) l d = (l, put_store b v d)

unfoldable pub run_ops : ℕ → List DiskOp → LogManager → Disk → LogManager × Disk
unfolding run_op
run_ops tid [] l d = (l, d)
run_ops tid (o ∷ os) l d = let (l', d') = run_op tid o l d in run_ops tid os l' d'
