-- ===== src/Transaction/Rollback.antt =====
-- The loop of commit of src/Transaction.cc, stopped anywhere, and undone newest first.
use mathlib.Core.Path.{subst}
use mathlib.Core.List.{reverse}
use system_t.Base.{ℕ, zero, suc, ◌-◌, refl, ◌∙◌, sym, Option, none, some, List, [], ◌∷◌}
use system_t.Disk.{
  Block, blank, allocated, unallocated, LogAction, lread, lwrite, lallocate, lrelease, Logrecord,
  Disk,
}
use system_t.Disk.Cells.{lt-length_of_get_elem?}
use system_t.Log.Manager.{LogManager, log, undo_action, undo_rec, put_store, put_index}
use system_t.Transaction.Commit.{
  Change, allocates, writes, releases, reads, change_ops, loop_ops, run_ops,
}
use system_t.Transaction.Undo.{
  SameData, SameBut, SameData-refl, SameBut-trans, SameData-trans, put_index-SameBut,
  put_store-SameBut,
}
use system_t.Transaction.Atomic.{
  take, records, AllPending, AllPending-SameBut, undo_rec-reverse-cons, undo-allocates, undo-writes,
  undo-releases,
}

module _ (tid : ℕ) (action : LogAction) (b oindex : ℕ) (old : Option Block) (l : LogManager)
    (d : Disk) where
  -- Writing a log record touches no data.
  pub log-SameBut : (i : ℕ) → SameBut i d (log tid action b oindex old l d).1
  unfolding log
  log-SameBut i = record {
    index_size = refl;
    store_size = refl;
    index = λ j _. refl;
    store = λ j _ _. refl;
  }

  pub log-SameData : SameData d (log tid action b oindex old l d).1
  unfolding log
  log-SameData = record {
    index_size = refl;
    store_size = refl;
    index = λ j. refl;
    store = λ j _. refl;
  }

-- What the loop has written when it stops after `k` writes, and what is left when that is undone.
abbrev pub stopped : ℕ → ℕ → List (ℕ × Change) → LogManager → Disk → Disk
stopped tid k cs l d = (run_ops tid (take k (loop_ops cs)) l d).1

abbrev pub undone : ℕ → ℕ → List (ℕ × Change) → LogManager → Disk → Disk
undone tid k cs l d = undo_rec (reverse (records tid (take k (loop_ops cs)))) (stopped tid k cs l d)

-- Undoing newest first, the record of the first block comes last.
undo_last :
    (d final : Disk) (r : Logrecord) (rs : List Logrecord)
    → SameData d (undo_action r.action r (undo_rec (reverse rs) final))
    → SameData d (undo_rec (reverse (r ∷ rs)) final)
undo_last d final r rs s = subst (SameData d) (sym (undo_rec-reverse-cons r rs final)) s

pub loop-undone :
    (tid k : ℕ) (cs : List (ℕ × Change)) (l : LogManager) (d : Disk)
    → AllPending d cs
    → SameData d (undone tid k cs l d)
unfolding loop_ops change_ops run_ops records undo_rec
loop-undone tid zero [] l d p = SameData-refl d
loop-undone tid (suc k) [] l d p = SameData-refl d
loop-undone tid zero ((b, c) ∷ cs) l d p = SameData-refl d
loop-undone tid (suc k) ((b, reads) ∷ cs) l d p =
    let (l', d') = log tid lread b blank none l d in
    undo_last d _ _ (records tid (take k (loop_ops cs))) (
      SameData-trans d d' _ (log-SameData tid lread b blank none l d) (
        loop-undone tid k cs l' d' (
          AllPending-SameBut b d d' cs p.0 (log-SameBut tid lread b blank none l d (b - 1)) p.2
            p.3)))
loop-undone tid (suc zero) ((b, allocates v) ∷ cs) l d p =
    undo-allocates b d _ (log-SameBut tid lallocate b blank none l d (b - 1)) v p.1
loop-undone tid (suc (suc zero)) ((b, allocates v) ∷ cs) l d p =
    undo-allocates b d _
      (put_index-SameBut (b - 1) d _ (log-SameBut tid lallocate b blank none l d (b - 1)) allocated
        (lt-length_of_get_elem? (b - 1) d.index unallocated p.1.0))
      v p.1
loop-undone tid (suc (suc (suc k))) ((b, allocates v) ∷ cs) l d p =
    let (l', d₁) = log tid lallocate b blank none l d in
    let d' = put_store b v (put_index b allocated d₁) in
    let changed : SameBut (b - 1) d d' =
      put_store-SameBut (b - 1) d _
        (put_index-SameBut (b - 1) d d₁ (log-SameBut tid lallocate b blank none l d (b - 1))
          allocated (lt-length_of_get_elem? (b - 1) d.index unallocated p.1.0))
        v p.1.1 in
    undo_last d _ _ (records tid (take k (loop_ops cs))) (
      undo-allocates b d _
        (SameBut-trans (b - 1) d d' _ changed
          (loop-undone tid k cs l' d' (AllPending-SameBut b d d' cs p.0 changed p.2 p.3)))
        v p.1)
loop-undone tid (suc zero) ((b, writes oindex old v) ∷ cs) l d p =
    undo-writes b d _ (log-SameBut tid lwrite b oindex (some old) l d (b - 1)) oindex old v p.1
      ((log-SameData tid lwrite b oindex (some old) l d).index (b - 1))
loop-undone tid (suc (suc k)) ((b, writes oindex old v) ∷ cs) l d p =
    let (l', d₁) = log tid lwrite b oindex (some old) l d in
    let d' = put_store b v d₁ in
    let changed : SameBut (b - 1) d d' =
      put_store-SameBut (b - 1) d d₁ (log-SameBut tid lwrite b oindex (some old) l d (b - 1)) v
        (lt-length_of_get_elem? (b - 1) d.store old p.1.1) in
    let rest = loop-undone tid k cs l' d' (AllPending-SameBut b d d' cs p.0 changed p.2 p.3) in
    undo_last d _ _ (records tid (take k (loop_ops cs))) (
      undo-writes b d _ (SameBut-trans (b - 1) d d' _ changed rest) oindex old v p.1
        (rest.index (b - 1) ∙ (log-SameData tid lwrite b oindex (some old) l d).index (b - 1)))
loop-undone tid (suc zero) ((b, releases oindex old) ∷ cs) l d p =
    undo-releases b d _ (log-SameBut tid lrelease b oindex (some old) l d (b - 1)) oindex old p.1
loop-undone tid (suc (suc k)) ((b, releases oindex old) ∷ cs) l d p =
    let (l', d₁) = log tid lrelease b oindex (some old) l d in
    let d' = put_index b unallocated d₁ in
    let changed : SameBut (b - 1) d d' =
      put_index-SameBut (b - 1) d d₁ (log-SameBut tid lrelease b oindex (some old) l d (b - 1))
        unallocated (lt-length_of_get_elem? (b - 1) d.index oindex p.1.0) in
    undo_last d _ _ (records tid (take k (loop_ops cs))) (
      undo-releases b d _
        (SameBut-trans (b - 1) d d' _ changed
          (loop-undone tid k cs l' d' (AllPending-SameBut b d d' cs p.0 changed p.2 p.3)))
        oindex old p.1)
