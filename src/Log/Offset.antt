-- ===== src/Log/Offset.antt =====
-- The offset at which a LogManager of src/LogManager.cc writes, with two processes.
use system_t.Log.Scan.{scan}
use mathlib.Core.List.{reverse}
use system_t.Base.{ℕ, ◌≡◌, refl, ◌≢◌, Option, none, List, [], ◌∷◌, arith, sym}
use system_t.Outcome.{running}
use system_t.Disk.{Block, LogAction, lbegin, Logrecord, Disk, write_at, blank}
use system_t.Log.Manager.{LogManager, open_log, log, oldval_or_zero, rollback}
use system_t.Log.Rollback.{rollback_hangs}

-- Another transaction begins to commit in another process.
abbrev pub begins : ℕ → Disk → Disk
begins t d = (log t lbegin 0 blank none open_log d).1

-- The first record of a new logger goes over the first record of the log.
log-open_log :
    (t : ℕ) (action : LogAction) (b oindex : ℕ) (old : Option Block) (d : Disk) (r : Logrecord)
    (rest : List Logrecord)
    → d.log ≡ r ∷ rest
    → (log t action b oindex old open_log d).1.log
      ≡ record { tid = t; action = action; block = b; oindex = oindex; oldval = oldval_or_zero old }
        ∷ rest
unfolding log open_log write_at
log-open_log t action b oindex old d r rest e = rw e refl

-- The record that BEGIN writes.
abbrev pub begin_record : ℕ → Logrecord
begin_record t = record {
  tid = t;
  action = lbegin;
  block = 0;
  oindex = blank;
  oldval = oldval_or_zero none;
}

log-begins_empty : (t : ℕ) (d : Disk) → d.log ≡ [] → (begins t d).log ≡ begin_record t ∷ []
unfolding log open_log write_at
log-begins_empty t d e = rw e refl

scan-other : (t : ℕ) (r : Logrecord) → r.tid ≢ t → scan t (reverse (r ∷ [])) ≡ none
unfolding scan
scan-other t r n = ground arith

-- Two transactions of two processes begin to commit, one after the other, over an empty log. The
-- BEGIN of the first is gone, and the rollback of the first does not return, however many rounds it
-- is given.
pub second_begin_hangs_first :
    (t u fuel : ℕ) (l : LogManager) (d : Disk)
    → t ≢ u
    → d.log ≡ []
    → rollback fuel t l (begins u (begins t d)) ≡ running
second_begin_hangs_first t u fuel l d apart empty =
    let one = log-begins_empty t d empty in
    let over = log-open_log u lbegin 0 blank none (begins t d) (begin_record t) [] one in
    rollback_hangs t fuel l (begins u (begins t d)) (rw over (λ e. cc))
      (rw over (scan-other t (begin_record u) (λ e. apart (sym e))))
