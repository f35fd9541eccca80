-- ===== src/Transaction/Atomicity.antt =====
-- A process that dies while it commits: what rollback finds in the log, and what it restores.
use system_t.Monitor.Returns.{Returns, Returns-map}
use system_t.Log.Scan.{scan}
use mathlib.Core.Path.{subst}
use mathlib.Core.List.{reverse, reverse-cons, reverse-append, append_assoc, append-nil}
use system_t.Base.{
  ℕ, zero, suc, ◌≤◌, ◌<◌, ◌≡◌, refl, sym, ◌∙◌, ap, false, Option, none, some, List, [], ◌∷◌, ◌++◌,
  arith,
}
use system_t.Disk.{length, blank, LogAction, lbegin, Block, Logrecord, zero_record, Disk, write_at}
use system_t.Log.Manager.{LogManager, log, oldval_or_zero, is_begin, is_end, undo_rec, rollback}
use system_t.Log.Recovery.{write_at-length}
use system_t.Log.Rollback.{rollback-Returns}
use system_t.Log.Recovery.{abort_record}
use system_t.Transaction.Commit.{
  DiskOp, log_op, index_op, store_op, Change, allocates, writes, releases, reads, change_ops,
  loop_ops, begin_op, end_op, commit_ops, run_ops,
}
use system_t.Transaction.Undo.{SameData, SameData-trans, SameData-of_eq}
use system_t.Transaction.Atomic.{take, records, AllPending, AllPending-SameData, undo_rec-append}
use system_t.Transaction.Rollback.{loop-undone, log-SameData}

log-length : (r : Logrecord) (file : List Logrecord) → length (file ++ r ∷ []) ≡ suc (length file)
log-length r [] = refl
log-length r (x ∷ file) = ap suc (log-length r file)

module _ (tid : ℕ) (action : LogAction) (b oindex : ℕ) (old : Option Block) (l : LogManager)
    (d : Disk) (at_end : l.logfd ≡ length d.log) where
  abbrev log_record : Logrecord
  log_record = record {
    tid = tid;
    action = action;
    block = b;
    oindex = oindex;
    oldval = oldval_or_zero old;
  }

  log-appends : (log tid action b oindex old l d).1.log ≡ d.log ++ log_record ∷ []
  unfolding log
  log-appends =
      subst (λ i. write_at zero_record i log_record d.log ≡ d.log ++ log_record ∷ []) (sym at_end)
        (write_at-length zero_record log_record d.log)

  -- The offset is at the end again.
  log_at_end :
      (log tid action b oindex old l d).0.logfd ≡ length (log tid action b oindex old l d).1.log
  log_at_end = rw log-appends (rw (log-length log_record d.log) (next_offset))
    where
      next_offset : (log tid action b oindex old l d).0.logfd ≡ suc (length d.log)
      next_offset = unfold log in ap suc at_end

-- A logger that stands at the end of the log appends its records.
log-run_ops :
    (tid : ℕ) (ops : List DiskOp) (l : LogManager) (d : Disk)
    → l.logfd ≡ length d.log
    → (run_ops tid ops l d).1.log ≡ d.log ++ records tid ops
unfolding run_ops records
log-run_ops tid [] l d e = sym (append-nil d.log)
log-run_ops tid (log_op action b oindex old ∷ ops) l d e =
    let (l', d') = log tid action b oindex old l d in
    log-run_ops tid ops l' d' (log_at_end tid action b oindex old l d e)
    ∙ ap (λ file. file ++ records tid ops) (log-appends tid action b oindex old l d e)
    ∙ append_assoc d.log (log_record tid action b oindex old l d e ∷ []) (records tid ops)
log-run_ops tid (index_op b c ∷ ops) l d e = log-run_ops tid ops l _ e
log-run_ops tid (store_op b v ∷ ops) l d e = log-run_ops tid ops l _ e

-- Records of the transaction between its BEGIN and its END.
abbrev AllPlain : ℕ → List Logrecord → Type 0
AllPlain t [] = Unit
AllPlain t (r ∷ rs) =
    (r.tid ≡ t) × (is_end r.action ≡ false) × (is_begin r.action ≡ false) × AllPlain t rs

AllPlain-append :
    (t : ℕ) (xs ys : List Logrecord) → AllPlain t xs → AllPlain t ys → AllPlain t (xs ++ ys)
AllPlain-append t [] ys p q = q
AllPlain-append t (x ∷ xs) ys p q = (p.0, p.1, p.2, AllPlain-append t xs ys p.3 q)

AllPlain-reverse : (t : ℕ) (xs : List Logrecord) → AllPlain t xs → AllPlain t (reverse xs)
AllPlain-reverse t [] p = tt
AllPlain-reverse t (x ∷ xs) p =
    rw (reverse-cons x xs)
      (AllPlain-append t (reverse xs) (x ∷ []) (AllPlain-reverse t xs p.3) (p.0, p.1, p.2, tt))

loop-AllPlain :
    (tid k : ℕ) (cs : List (ℕ × Change)) → AllPlain tid (records tid (take k (loop_ops cs)))
unfolding loop_ops change_ops records
loop-AllPlain tid zero [] = tt
loop-AllPlain tid (suc k) [] = tt
loop-AllPlain tid zero ((b, c) ∷ cs) = tt
loop-AllPlain tid (suc k) ((b, reads) ∷ cs) = (refl, refl, refl, loop-AllPlain tid k cs)
loop-AllPlain tid (suc zero) ((b, allocates v) ∷ cs) = (refl, refl, refl, tt)
loop-AllPlain tid (suc (suc zero)) ((b, allocates v) ∷ cs) = (refl, refl, refl, tt)
loop-AllPlain tid (suc (suc (suc k))) ((b, allocates v) ∷ cs) =
    (refl, refl, refl, loop-AllPlain tid k cs)
loop-AllPlain tid (suc zero) ((b, writes oindex old v) ∷ cs) = (refl, refl, refl, tt)
loop-AllPlain tid (suc (suc k)) ((b, writes oindex old v) ∷ cs) =
    (refl, refl, refl, loop-AllPlain tid k cs)
loop-AllPlain tid (suc zero) ((b, releases oindex old) ∷ cs) = (refl, refl, refl, tt)
loop-AllPlain tid (suc (suc k)) ((b, releases oindex old) ∷ cs) =
    (refl, refl, refl, loop-AllPlain tid k cs)

-- The search goes back over them to the BEGIN.
scan-AllPlain :
    (t : ℕ) (xs ys : List Logrecord) (b : Logrecord)
    → AllPlain t xs
    → b.tid ≡ t
    → b.action ≡ lbegin
    → scan t (xs ++ b ∷ ys) ≡ some (some (xs ++ b ∷ []))
unfolding scan
scan-AllPlain t [] ys b p own e = ground arith
scan-AllPlain t (x ∷ xs) ys b p own e = ground (arith, scan-AllPlain t xs ys b p.3 own e)

take-append : {A : Type 0} (k : ℕ) (xs ys : List A) → k ≤ length xs → take k (xs ++ ys) ≡ take k xs
take-append zero xs ys h = refl
take-append (suc k) [] ys h = absurd (omega arith)
take-append (suc k) (x ∷ xs) ys h = ap (◌∷◌ x) (take-append k xs ys (omega arith))

module _ (tid k : ℕ) (cs : List (ℕ × Change)) (l : LogManager) (d : Disk)
    (at_end : l.logfd ≡ length d.log) (pending : AllPending d cs)
    (part : k ≤ length (loop_ops cs)) where
  -- The disk after BEGIN and `k` more writes of commit.
  abbrev pub died : Disk
  died = (run_ops tid (take (suc k) (commit_ops cs)) l d).1

  abbrev pub writes_made : List Logrecord
  writes_made = records tid (take k (loop_ops cs))

  abbrev pub begin_record : Logrecord
  begin_record = log_record tid lbegin 0 blank none l d at_end

  pub take-commit_ops : take (suc k) (commit_ops cs) ≡ begin_op ∷ take k (loop_ops cs)
  unfolding commit_ops
  take-commit_ops = ap (◌∷◌ begin_op) (take-append k (loop_ops cs) (end_op ∷ []) part)

  pub log-died : died.log ≡ d.log ++ begin_record ∷ writes_made
  unfolding records
  log-died =
      subst (λ ops. (run_ops tid ops l d).1.log ≡ d.log ++ begin_record ∷ writes_made)
        (sym take-commit_ops) (log-run_ops tid (begin_op ∷ take k (loop_ops cs)) l d at_end)

  found : scan tid (reverse died.log) ≡ some (some (reverse writes_made ++ begin_record ∷ []))
  found =
      subst (λ file. scan tid file ≡ some (some (reverse writes_made ++ begin_record ∷ [])))
        (sym newest_first)
        (scan-AllPlain tid (reverse writes_made) (reverse d.log) begin_record
          (AllPlain-reverse tid writes_made (loop-AllPlain tid k cs)) refl refl)
    where
      newest_first : reverse died.log ≡ reverse writes_made ++ begin_record ∷ reverse d.log
      newest_first =
          ap reverse log-died
          ∙ reverse-append d.log (begin_record ∷ writes_made)
          ∙ ap (λ file. file ++ reverse d.log) (reverse-cons begin_record writes_made)
          ∙ append_assoc (reverse writes_made) (begin_record ∷ []) (reverse d.log)

  data_back : SameData d (undo_rec (reverse writes_made ++ begin_record ∷ []) died)
  unfolding undo_rec run_ops
  data_back =
      subst (SameData d) (sym (undo_rec-append (reverse writes_made) (begin_record ∷ []) died)) (
        subst
          (λ ops.
            SameData d (
              undo_rec (begin_record ∷ [])
                (undo_rec (reverse writes_made) (run_ops tid ops l d).1)))
          (sym take-commit_ops) loop_back)
    where
      l' : LogManager
      l' = (log tid lbegin 0 blank none l d).0

      d' : Disk
      d' = (log tid lbegin 0 blank none l d).1

      pending' : AllPending d' cs
      pending' = AllPending-SameData d d' cs (log-SameData tid lbegin 0 blank none l d) pending

      loop_back : SameData d (
          undo_rec
            (begin_record ∷ [])
            (undo_rec (reverse writes_made) (run_ops tid (begin_op ∷ take k (loop_ops cs)) l d).1))
      loop_back =
          SameData-trans d d' _ (log-SameData tid lbegin 0 blank none l d)
            (loop-undone tid k cs l' d' pending')

  -- What rollback makes of it: the old data, and an ABORT record at the end of the log.
  abbrev pub IsUndone : LogManager × Disk → Type 0
  IsUndone r = SameData d r.1 × (r.1.log ≡ died.log ++ abort_record tid ∷ [])

  pub rollback-IsUndone :
      (fuel : ℕ) (logger : LogManager)
      → length died.log < fuel
      → Returns IsUndone (rollback fuel tid logger died)
  rollback-IsUndone fuel logger enough =
      Returns-map _ IsUndone (rollback fuel tid logger died)
        (λ r back.
          (SameData-trans d _ r.1 data_back (SameData-of_eq back.index back.store), back.log))
        (rollback-Returns tid fuel logger died (some (reverse writes_made ++ begin_record ∷ []))
          enough found)

  -- A process dies after any write of commit from BEGIN on and before END. If its logger stood at the
  -- end of the log, and the entries of its block map are about different blocks, numbered from 1, and
  -- hold what the disk holds, then with more rounds than the log has records the rollback of its
  -- transaction returns, and the data are as they were before the commit: every block has its old
  -- status in the index, and every allocated one its old content.
  pub commit_undone :
      (fuel : ℕ) (logger : LogManager)
      → length died.log < fuel
      → Returns (λ r. SameData d r.1) (rollback fuel tid logger died)
  commit_undone fuel logger enough =
      Returns-map IsUndone (λ r. SameData d r.1) (rollback fuel tid logger died)
        (λ r undone. undone.0) (rollback-IsUndone fuel logger enough)
