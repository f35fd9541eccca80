-- ===== src/Log/Manager.antt =====
-- src/LogManager.cc: writing the log, undoing its records, rollback and recovery. Each process has
-- a LogManager of its own, whose descriptor of the log has an offset, counted in records.
use system_t.Base.{
  ℕ, zero, suc, ◌-◌, Bool, true, false, Option, none, some, List, [], ◌∷◌, ◌++◌, ◌==◌,
  if◌then◌else◌,
}
use system_t.Map.{Map, find, insert, erase, modify}
use system_t.Outcome.{Outcome, returns, undefined, running, ◌>>=◌}
use system_t.Disk.{
  Block, allocated, unallocated, length, get_elem?, write_at, zero_block, LogAction, lread, lwrite,
  lallocate, labort, lrelease, lbegin, lend, lcommit, Logrecord, zero_record, entry, aborted, Disk,
}

pub record LogManager : Type 0 where
  pub logfd : ℕ

-- The constructor: open() puts the offset at the start of the file.
unfoldable pub open_log : LogManager
open_log = record { logfd = 0 }

unfoldable pub action_char : LogAction → ℕ
action_char lread = b'R'
action_char lwrite = b'W'
action_char lallocate = b'A'
action_char labort = b'T'
action_char lrelease = b'S'
action_char lbegin = b'B'
action_char lend = b'E'
action_char lcommit = b'C'

-- write(logfd, &lgr, sizeof(lgr))
unfoldable pub append_record : Logrecord → LogManager → Disk → LogManager × Disk
append_record lgr l d =
    (record l { logfd = suc l.logfd }, record d { log = write_at zero_record l.logfd lgr d.log })

unfoldable pub oldval_or_zero : Option Block → Block
oldval_or_zero none = zero_block
oldval_or_zero (some v) = v

unfoldable pub log : ℕ → LogAction → ℕ → ℕ → Option Block → LogManager → Disk → LogManager × Disk
unfolding append_record oldval_or_zero action_char
log tid action block oldindex oldval l d =
    let lgr : Logrecord = record {
      tid = tid;
      action = action;
      block = block;
      oindex = oldindex;
      oldval = oldval_or_zero oldval;
    } in
    let shown : Option ℕ = (if block == 0 then none else some block) in
    append_record lgr l
      (record d { alog = d.alog ++ entry tid (action_char action) shown oldindex oldval ∷ [] })

-- pwrite of a block of the store or of a byte of the index; blocks are counted from 1.
abbrev pub put_store : ℕ → Block → Disk → Disk
put_store block v d = record d { store = write_at zero_block (block - 1) v d.store }

abbrev pub put_index : ℕ → ℕ → Disk → Disk
put_index block c d = record d { index = write_at 0 (block - 1) c d.index }

-- The body of the loop of undo_rec.
unfoldable pub undo_action : LogAction → Logrecord → Disk → Disk
undo_action lwrite p d = put_store p.block p.oldval d
undo_action lallocate p d = put_index p.block unallocated d
undo_action lrelease p d =
    let d' = put_index p.block p.oindex d in
    if p.oindex == allocated then put_store p.block p.oldval d' else d'
undo_action _ p d = d

unfoldable pub undo_rec : List Logrecord → Disk → Disk
unfolding undo_action
undo_rec [] d = d
undo_rec (p ∷ rest) d = undo_rec rest (undo_action p.action p d)

-- At the current offset of the log.
unfoldable pub write_abort_rec : ℕ → LogManager → Disk → LogManager × Disk
unfolding append_record
write_abort_rec tid l d =
    append_record (record zero_record { tid = tid; action = labort }) l
      (record d { alog = d.alog ++ aborted tid b'T' ∷ [] })

-- lseek(logfd, 0, SEEK_END)
abbrev pub seek_end : LogManager → Disk → LogManager
seek_end l d = record l { logfd = length d.log }

abbrev pub is_begin : LogAction → Bool
is_begin lbegin = true
is_begin _ = false

abbrev pub is_end : LogAction → Bool
is_end lend = true
is_end _ = false

-- The loop of rollback, backwards from offset `pos`. At the start of the file the seek fails and
-- the first record is read again; from an empty file nothing is read into `lgr`. `none` means that
-- an END was met.
unfoldable pub collect_back :
    ℕ → ℕ → List Logrecord → ℕ → List Logrecord → Outcome (Option (List Logrecord))
collect_back zero tid file pos collected = running
collect_back (suc fuel) tid file pos collected = elim (get_elem? file (pos - 1)) [
  | none ↦ undefined
  | some lgr ↦
      let skip = collect_back fuel tid file (pos - 1) collected in
      let keep = collect_back fuel tid file (pos - 1) (collected ++ lgr ∷ []) in
      if lgr.tid == tid
      then (if is_end lgr.action
          then returns none
          else if is_begin lgr.action
          then returns (some (collected ++ lgr ∷ []))
          else keep)
      else skip
]

-- What rollback does with the records that it has collected; log.front() is the newest.
unfoldable pub undo_collected :
    Option (List Logrecord) → LogManager → Disk → Outcome (LogManager × Disk)
undo_collected none l d = returns (l, d)
undo_collected (some []) l d = undefined
undo_collected (some (r ∷ rest)) l d =
    let d' = undo_rec (r ∷ rest) d in returns (write_abort_rec r.tid (seek_end l d') d')

unfoldable pub rollback : ℕ → ℕ → LogManager → Disk → Outcome (LogManager × Disk)
rollback fuel tid l d = do
  collected ← collect_back fuel tid d.log (length d.log) []
  undo_collected collected l d

abbrev pub is_stop : LogAction → Bool
is_stop lend = true
is_stop labort = true
is_stop _ = false

-- One round of the loop of doRecovery that reads the log.
unfoldable pub sort_record : Logrecord → Map (List Logrecord) → Map (List Logrecord)
sort_record lgr bts =
    let known : Map (List Logrecord) = elim (find lgr.tid bts) [
      | none ↦ insert lgr.tid [] bts
      | some records ↦ bts
    ] in
    if is_stop lgr.action
    then erase lgr.tid known
    else modify lgr.tid (λ records. records ++ lgr ∷ []) known

unfoldable pub broken : Map (List Logrecord) → List Logrecord → Map (List Logrecord)
broken bts [] = bts
broken bts (lgr ∷ rest) = broken (sort_record lgr bts) rest

-- The loop of doRecovery over the broken transactions; p->second->front() of an empty list is
-- undefined.
unfoldable pub repair : Map (List Logrecord) → LogManager → Disk → Outcome (LogManager × Disk)
repair [] l d = returns (l, d)
repair ((tid, []) ∷ rest) l d = undefined
repair ((tid, r ∷ rs) ∷ rest) l d =
    let d' = undo_rec (r ∷ rs) d in
    let (l'', d'') = write_abort_rec r.tid (seek_end l d') d' in repair rest l'' d''

unfoldable pub do_recovery : LogManager → Disk → Outcome (LogManager × Disk)
do_recovery l d = repair (broken [] d.log) l d
