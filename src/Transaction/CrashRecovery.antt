-- ===== src/Transaction/CrashRecovery.antt =====
-- LogManager::doRecovery of src/LogManager.cc after the monitor and a process in commit died.
use mathlib.Core.Path.{subst}
use mathlib.Core.List.{append-nil, append_assoc}
use system_t.Monitor.Returns.{Returns}
use system_t.Base.{
  ℕ, zero, suc, ◌-◌, ◌≤◌, ◌≡◌, refl, sym, ◌∙◌, ap, inl, false, Option, none, some, List, [], ◌∷◌,
  ◌++◌, arith,
}
use system_t.Map.{find, insert, modify}
use system_t.Disk.{
  Block, blank, length, LogAction, unallocated, lread, lwrite, lallocate, lrelease, lbegin,
  Logrecord, Disk,
}
use system_t.Disk.Cells.{lt-length_of_get_elem?}
use system_t.Log.Manager.{LogManager, is_stop, sort_record, broken, do_recovery, oldval_or_zero}
use system_t.Log.Restore.{AllHoldOld, IsCovered}
use system_t.Log.Recovery.{broken-append}
use system_t.Transaction.Commit.{
  Change, allocates, writes, releases, reads, change_ops, loop_ops, begin_op, run_ops, DiskOp,
  log_op,
}
use system_t.Transaction.Undo.{SameData}
use system_t.Transaction.Atomic.{take, records, AllPending}
use system_t.Transaction.Recover.{AllNoted, AllNoted-cons, run_ops-IsCovered, repair-SameData}
use system_t.Transaction.Atomicity.{died, take-commit_ops, log-died, begin_record}

-- Records of the transaction that leave it broken.
abbrev AllOpen : ℕ → List Logrecord → Type 0
AllOpen t [] = Unit
AllOpen t (r ∷ rs) = (r.tid ≡ t) × (is_stop r.action ≡ false) × AllOpen t rs

broken-AllOpen :
    (t : ℕ) (kept rs : List Logrecord)
    → AllOpen t rs
    → broken ((t, kept) ∷ []) rs ≡ (t, kept ++ rs) ∷ []
unfolding broken sort_record find insert modify
broken-AllOpen t kept [] h = rw (append-nil kept) refl
broken-AllOpen t kept (r ∷ rs) h =
    let own = h.0 in
    let ongoing = h.1 in
    let rest = broken-AllOpen t (kept ++ r ∷ []) rs h.2 in
    ground (arith, rest, append_assoc kept (r ∷ []) rs)

broken-begin :
    (t : ℕ) (r : Logrecord) (rs : List Logrecord)
    → r.tid ≡ t
    → r.action ≡ lbegin
    → AllOpen t rs
    → broken [] (r ∷ rs) ≡ (t, r ∷ rs) ∷ []
unfolding broken sort_record find insert modify
broken-begin t r rs own e h = let rest = broken-AllOpen t (r ∷ []) rs h in ground arith

-- The first writes of the loop of commit: their records hold what the disk has, and are about
-- everything that they change.
record IsNoted (d : Disk) (tid : ℕ) (ops : List DiskOp) : Type 0 where
  hold : AllHoldOld d (records tid ops)
  noted : AllNoted d (records tid ops) ops
  ongoing : AllOpen tid (records tid ops)

noted_after :
    (d : Disk) (tid : ℕ) (action : LogAction) (b oindex : ℕ) (old : Option Block) (k : ℕ)
    (cs : List (ℕ × Change))
    → IsNoted d tid (take k (loop_ops cs))
    → AllNoted d
        (records tid (log_op action b oindex old ∷ take k (loop_ops cs)))
        (take k (loop_ops cs))
unfolding records
noted_after d tid action b oindex old k cs n =
    AllNoted-cons d
      (record {
        tid = tid;
        action = action;
        block = b;
        oindex = oindex;
        oldval = oldval_or_zero old;
      })
      (records tid (take k (loop_ops cs))) (take k (loop_ops cs)) n.noted

loop-IsNoted :
    (d : Disk) (tid k : ℕ) (cs : List (ℕ × Change))
    → AllPending d cs
    → IsNoted d tid (take k (loop_ops cs))
unfolding loop_ops change_ops records
loop-IsNoted d tid zero [] p = record { hold = tt; noted = tt; ongoing = tt }
loop-IsNoted d tid (suc k) [] p = record { hold = tt; noted = tt; ongoing = tt }
loop-IsNoted d tid zero (c ∷ cs) p = record { hold = tt; noted = tt; ongoing = tt }
loop-IsNoted d tid (suc k) ((b, reads) ∷ cs) p =
    let rest = loop-IsNoted d tid k cs p.3 in
    record {
      hold = (tt, rest.hold);
      noted = noted_after d tid lread b blank none k cs rest;
      ongoing = (refl, refl, rest.ongoing);
    }
loop-IsNoted d tid (suc zero) ((b, allocates v) ∷ cs) p = record {
  hold = (p.1.0, tt);
  noted = tt;
  ongoing = (refl, refl, tt);
}
loop-IsNoted d tid (suc (suc zero)) ((b, allocates v) ∷ cs) p = record {
  hold = (p.1.0, tt);
  noted = (inl (refl, refl), lt-length_of_get_elem? (b - 1) d.index unallocated p.1.0, tt);
  ongoing = (refl, refl, tt);
}
loop-IsNoted d tid (suc (suc (suc k))) ((b, allocates v) ∷ cs) p =
    let rest = loop-IsNoted d tid k cs p.3 in
    record {
      hold = (p.1.0, rest.hold);
      noted = (
        inl (refl, refl),
        lt-length_of_get_elem? (b - 1) d.index unallocated p.1.0,
        (inl (refl, refl), p.1.1, noted_after d tid lallocate b blank none k cs rest),
      );
      ongoing = (refl, refl, rest.ongoing);
    }
loop-IsNoted d tid (suc zero) ((b, writes oindex old v) ∷ cs) p = record {
  hold = (p.1.1, tt);
  noted = tt;
  ongoing = (refl, refl, tt);
}
loop-IsNoted d tid (suc (suc k)) ((b, writes oindex old v) ∷ cs) p =
    let rest = loop-IsNoted d tid k cs p.3 in
    record {
      hold = (p.1.1, rest.hold);
      noted = (
        inl (refl, refl),
        lt-length_of_get_elem? (b - 1) d.store old p.1.1,
        noted_after d tid lwrite b oindex (some old) k cs rest,
      );
      ongoing = (refl, refl, rest.ongoing);
    }
loop-IsNoted d tid (suc zero) ((b, releases oindex old) ∷ cs) p = record {
  hold = (p.1, tt);
  noted = tt;
  ongoing = (refl, refl, tt);
}
loop-IsNoted d tid (suc (suc k)) ((b, releases oindex old) ∷ cs) p =
    let rest = loop-IsNoted d tid k cs p.3 in
    record {
      hold = (p.1, rest.hold);
      noted = (
        inl (refl, refl),
        lt-length_of_get_elem? (b - 1) d.index oindex p.1.0,
        noted_after d tid lrelease b oindex (some old) k cs rest,
      );
      ongoing = (refl, refl, rest.ongoing);
    }

IsCovered-refl : (d : Disk) (rs : List Logrecord) → IsCovered d rs d
IsCovered-refl d rs = record {
  size = record { index_size = refl; store_size = refl };
  byte = λ j. inl refl;
  block = λ j. inl λ a. refl;
}

module _ (tid k : ℕ) (cs : List (ℕ × Change)) (l : LogManager) (d : Disk)
    (at_end : l.logfd ≡ length d.log) (pending : AllPending d cs)
    (part : k ≤ length (loop_ops cs)) where
  abbrev dead : Disk
  dead = died tid k cs l d at_end pending part

  abbrev left : List Logrecord
  left = begin_record tid k cs l d at_end pending part ∷ records tid (take k (loop_ops cs))

  broken-dead : broken [] d.log ≡ [] → broken [] dead.log ≡ (tid, left) ∷ []
  broken-dead none_broken =
      ap (broken []) (log-died tid k cs l d at_end pending part)
      ∙ broken-append [] d.log left
      ∙ ap (λ bts. broken bts left) none_broken
      ∙ broken-begin tid _ _ refl refl (loop-IsNoted d tid k cs pending).ongoing

  dead-IsCovered : IsCovered d left dead
  unfolding records
  dead-IsCovered =
      subst (λ ops. IsCovered d left (run_ops tid ops l d).1)
        (sym (take-commit_ops tid k cs l d at_end pending part))
        (run_ops-IsCovered d d tid (begin_op ∷ take k (loop_ops cs)) l left
          (noted_after d tid lbegin 0 blank none k cs (loop-IsNoted d tid k cs pending))
          (IsCovered-refl d left))

  -- The same crash takes the monitor down too, before it rolls the transaction back. If the log had no
  -- other transaction without END or ABORT, the recovery that the next monitor starts with returns, and
  -- the data are as they were before the commit: every block has its old status in the index, and
  -- every allocated one its old content.
  pub do_recovery-undoes :
      (logger : LogManager)
      → broken [] d.log ≡ []
      → Returns (λ r. SameData d r.1) (do_recovery logger dead)
  unfolding do_recovery
  do_recovery-undoes logger none_broken = rw (broken-dead none_broken) (
      repair-SameData d dead ((tid, left) ∷ []) logger ((λ e. cc), tt)
        (subst (AllHoldOld d) (sym (append-nil left)) (tt, (loop-IsNoted d tid k cs pending).hold))
        (subst (λ rs. IsCovered d rs dead) (sym (append-nil left)) dead-IsCovered))
