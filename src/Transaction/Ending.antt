-- ===== src/Transaction/Ending.antt =====
-- src/Transaction.cc, commit on the buffers of the block map, the destructor and the constructor;
-- src/Transaction.hh, the macros Begin and End.
use system_t.Base.{
  ℕ, zero, suc, Bool, true, false, Option, none, some, [], ◌∷◌, if◌then◌else◌, ◌==◌,
}
use system_t.Map.{Map}
use system_t.Trq.{begin, commit, end}
use system_t.Disk.{
  Block, blank, allocated, unallocated, LogAction, lread, lwrite, lallocate, lrelease, lbegin, lend,
}
use system_t.Log.Manager.{log, put_store, put_index, open_log}
use system_t.Transaction.State.{
  te_abort, te_restart, te_fail, Locktype, a_lock, r_lock, w_lock, s_lock, Pointer, Mblock,
  Transaction, Ran, gives, throws, waits, faults, spins, Act, ◌>>=◌, delete, deref, ends,
}
use system_t.Transaction.Calls.{abort_transaction, ask_tpm}

unfoldable pub write_log : LogAction → ℕ → ℕ → Option Block → Transaction → Transaction
write_log action block oldindex oldval s =
    let (l, d) = log s.tid action block oldindex oldval s.logger s.disk in
    record s { logger = l; disk = d }

-- pwrite of a buffer; a write from NULL fails, and commit aborts.
unfoldable pub write_store : ℕ → Pointer → Act (Unit {0})
unfolding abort_transaction
write_store block none s = abort_transaction s
write_store block (some p) s = elim (deref (some p) s.heap) [
  | none ↦ faults
  | some v ↦ gives tt (record s { disk = put_store block v s.disk })
]

unfoldable pub write_index : ℕ → ℕ → Transaction → Transaction
write_index block c s = record s { disk = put_index block c s.disk }

-- A record with an old value; the logger leaves it out for NULL.
unfoldable pub log_old : LogAction → ℕ → Mblock → Act (Unit {0})
unfolding write_log
log_old action block mb s = elim mb.oldval [
  | none ↦ gives tt (write_log action block mb.oldindex none s)
  | some p ↦ elim (deref (some p) s.heap) [
    | none ↦ faults
    | some v ↦ gives tt (write_log action block mb.oldindex (some v) s)
  ]
]

-- The switch in the loop of commit.
unfoldable pub commit_mblock : Locktype → ℕ → Mblock → Act (Unit {0})
unfolding write_log write_store write_index log_old
commit_mblock a_lock b mb s =
    write_store b mb.data_ (write_index b allocated (write_log lallocate b blank none s))
commit_mblock w_lock b mb s = log_old lwrite b mb s >>= λ _ s₁. write_store b mb.data_ s₁
commit_mblock s_lock b mb s =
    log_old lrelease b mb s >>= λ _ s₁. gives tt (write_index b unallocated s₁)
commit_mblock r_lock b mb s = gives tt (write_log lread b blank none s)

unfoldable pub commit_blocks : Map Mblock → Act (Unit {0})
unfolding commit_mblock
commit_blocks [] s = gives tt s
commit_blocks ((b, mb) ∷ rest) s =
    let later = commit_blocks rest in (commit_mblock mb.lock b mb s >>= λ _ s₁. later s₁)

unfoldable pub commit_transaction : Act (Unit {0})
unfolding ask_tpm abort_transaction write_log commit_blocks
commit_transaction s = ask_tpm commit 0 s >>= λ (granted, _) s₁.
    (if granted
      then (commit_blocks s₁.blockmap (write_log lbegin 0 blank none s₁) >>= λ _ s₂.
          ask_tpm end 0 (write_log lend 0 blank none s₂) >>= λ (ended, _) s₃.
          (if ended then gives tt s₃ else throws te_abort s₃))
      else abort_transaction s₁)

-- `delete` of a pointer that may be NULL.
unfoldable pub free_pointer : Pointer → Act (Unit {0})
unfolding delete
free_pointer none s = gives tt s
free_pointer (some p) s = elim (delete p s.heap) [
  | none ↦ faults
  | some h ↦ gives tt (record s { heap = h })
]

abbrev pub is_same : Pointer → Pointer → Bool
is_same none none = true
is_same (some p) (some q) = p == q
is_same _ _ = false

unfoldable pub free_blocks : Map Mblock → Act (Unit {0})
unfolding free_pointer
free_blocks [] s = gives tt s
free_blocks ((b, mb) ∷ rest) s =
    let later = free_blocks rest in
    ((if is_same mb.oldval mb.data_ then gives tt s else free_pointer mb.oldval s) >>= λ _ s₁.
    free_pointer mb.data_ s₁ >>= λ _ s₂. later s₂)

-- The destructor; the block map is gone with the object.
unfoldable pub destroy : Act (Unit {0})
unfolding commit_transaction free_blocks
destroy s = (if s.error_occured then gives tt s else commit_transaction s) >>= λ _ s₁.
    free_blocks s₁.blockmap s₁

-- The constructor, which exits when no number is assigned. The static member last_sleep stays as it is.
unfoldable pub construct : Act (Unit {0})
unfolding ask_tpm abort_transaction
construct s =
    let s₀ : Transaction = record s {
      tid = 0;
      error_occured = false;
      last_free_block = 0;
      blockmap = [];
      logger = open_log;
    } in
    (ask_tpm begin 0 s₀ >>= λ (assigned, rq) s₁.
    if assigned then gives tt (record s₁ { tid = rq.tid }) else ends)

-- Leaving the scope of the object: the destructor runs, also on an exception. If it throws in turn
-- during that, the program is terminated.
unfoldable pub leave_scope : Ran (Unit {0}) → Ran (Unit {0})
unfolding destroy
leave_scope (gives a s) = destroy s
leave_scope (throws e s) = elim (destroy s) [
  | gives _ s' ↦ throws e s'
  | throws _ _ ↦ ends
  | waits ↦ waits
  | faults ↦ faults
  | ends ↦ ends
  | spins ↦ spins
]
leave_scope waits = waits
leave_scope faults = faults
leave_scope ends = ends
leave_scope spins = spins

-- One pass from Begin to End: `body` is the code between the macros. If the constructor throws, there
-- is no object to destroy.
unfoldable pub attempt : Act (Unit {0}) → Act (Unit {0})
unfolding construct leave_scope
attempt body s = construct s >>= λ _ s₁. leave_scope (body s₁)

-- Begin and End: `goto begin_transaction` for TE_RESTART, at most `fuel` passes.
unfoldable pub begin_end : ℕ → Act (Unit {0}) → Act (Unit {0})
unfolding attempt
begin_end zero body s = spins
begin_end (suc fuel) body s =
    let again = begin_end fuel body in
    elim (attempt body s) [
      | gives _ s' ↦ gives tt s'
      | throws e s' ↦ elim e [ te_abort ↦ ends | te_restart ↦ again s' | te_fail ↦ gives tt s' ]
      | waits ↦ waits
      | faults ↦ faults
      | ends ↦ ends
      | spins ↦ spins
    ]
