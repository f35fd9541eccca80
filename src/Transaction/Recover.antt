-- ===== src/Transaction/Recover.antt =====
-- LogManager::doRecovery of src/LogManager.cc after processes died while they committed.
use system_t.Monitor.Returns.{Returns}
use system_t.Base.{
  ℕ, ◌-◌, ◌<◌, ◌≡◌, refl, ◌∙◌, inl, inr, List, [], ◌∷◌, ◌++◌, arith, ◌==◌, Bool-cases, ◌≢◌,
}
use system_t.Map.{Map}
use system_t.Disk.{zero_block, length, Logrecord, Disk}
use system_t.Disk.Cells.{get_elem?-write_at, length-write_at}
use system_t.Log.Manager.{LogManager, log, undo_rec, write_abort_rec, seek_end, repair}
use system_t.Log.Restore.{AllHoldOld, Among, marks, fills, IsCovered, undo_rec-IsCovered}
use system_t.Transaction.Commit.{DiskOp, log_op, index_op, store_op, run_ops, run_op}
use system_t.Transaction.Undo.{SameData}

-- The records of all the broken transactions.
abbrev pub all_records : Map (List Logrecord) → List Logrecord
all_records [] = []
all_records ((t, rs) ∷ bts) = rs ++ all_records bts

-- Every entry has records.
abbrev pub AllFull : Map (List Logrecord) → Type 0
AllFull [] = Unit
AllFull ((t, rs) ∷ bts) = (rs ≢ []) × AllFull bts

AllHoldOld-split :
    (d : Disk) (xs ys : List Logrecord)
    → AllHoldOld d (xs ++ ys)
    → AllHoldOld d xs × AllHoldOld d ys
AllHoldOld-split d [] ys h = (tt, h)
AllHoldOld-split d (x ∷ xs) ys h = let (p, q) = AllHoldOld-split d xs ys h.1 in ((h.0, p), q)

IsCovered-write_abort_rec :
    (d e : Disk) (rs : List Logrecord) (t : ℕ) (l : LogManager)
    → IsCovered d rs e
    → IsCovered d rs (write_abort_rec t l e).1
unfolding write_abort_rec
IsCovered-write_abort_rec d e rs t l c = record {
  size = record { index_size = c.size.index_size; store_size = c.size.store_size };
  byte = c.byte;
  block = c.block;
}

IsCovered-SameData : (d e : Disk) → IsCovered d [] e → SameData d e
IsCovered-SameData d e c = record {
  index_size = c.size.index_size;
  store_size = c.size.store_size;
  index = λ j. elim (c.byte j) [ inl p ↦ p | inr m ↦ absurd m ];
  store = λ j. elim (c.block j) [ inl p ↦ p | inr m ↦ absurd m ];
}

pub repair-SameData :
    (d e : Disk) (bts : Map (List Logrecord)) (l : LogManager)
    → AllFull bts
    → AllHoldOld d (all_records bts)
    → IsCovered d (all_records bts) e
    → Returns (λ r. SameData d r.1) (repair bts l e)
unfolding repair
repair-SameData d e [] l full h c = IsCovered-SameData d e c
repair-SameData d e ((t, []) ∷ bts) l full h c = absurd (full.0 refl)
repair-SameData d e ((t, r ∷ rs) ∷ bts) l full h c =
    let (own, rest) = AllHoldOld-split d (r ∷ rs) (all_records bts) h in
    let e' = undo_rec (r ∷ rs) e in
    let (l'', e'') = write_abort_rec r.tid (seek_end l e') e' in
    repair-SameData d e'' bts l'' full.1 rest (
      IsCovered-write_abort_rec d e' (all_records bts) r.tid (seek_end l e')
        (undo_rec-IsCovered d e (r ∷ rs) (all_records bts) own c))

-- Every write to the data is about a block that one of the records is about, and inside the files.
abbrev pub AllNoted : Disk → List Logrecord → List DiskOp → Type 0
AllNoted d rs [] = Unit
AllNoted d rs (log_op action b oindex old ∷ ops) = AllNoted d rs ops
AllNoted d rs (index_op b c ∷ ops) =
    Among marks (b - 1) rs × (b - 1 < length d.index) × AllNoted d rs ops
AllNoted d rs (store_op b v ∷ ops) =
    Among fills (b - 1) rs × (b - 1 < length d.store) × AllNoted d rs ops

pub AllNoted-cons :
    (d : Disk) (r : Logrecord) (rs : List Logrecord) (ops : List DiskOp)
    → AllNoted d rs ops
    → AllNoted d (r ∷ rs) ops
AllNoted-cons d r rs [] n = tt
AllNoted-cons d r rs (log_op action b oindex old ∷ ops) n = AllNoted-cons d r rs ops n
AllNoted-cons d r rs (index_op b c ∷ ops) n = (inr n.0, n.1, AllNoted-cons d r rs ops n.2)
AllNoted-cons d r rs (store_op b v ∷ ops) n = (inr n.0, n.1, AllNoted-cons d r rs ops n.2)

pub run_ops-IsCovered :
    (d e : Disk) (tid : ℕ) (ops : List DiskOp) (l : LogManager) (rs : List Logrecord)
    → AllNoted d rs ops
    → IsCovered d rs e
    → IsCovered d rs (run_ops tid ops l e).1
unfolding run_ops run_op
run_ops-IsCovered d e tid [] l rs n c = c
run_ops-IsCovered d e tid (log_op action b oindex old ∷ ops) l rs n c =
    let (l', e') = log tid action b oindex old l e in
    run_ops-IsCovered d e' tid ops l' rs n (
      unfold log in
      record {
        size = record { index_size = c.size.index_size; store_size = c.size.store_size };
        byte = c.byte;
        block = c.block;
      })
run_ops-IsCovered d e tid (index_op b v ∷ ops) l rs n c =
    let room : b - 1 < length e.index = let r = n.1 in let s = c.size.index_size in omega arith in
    run_ops-IsCovered d _ tid ops l rs n.2 (record {
      size = record {
        index_size = length-write_at 0 v (b - 1) e.index room ∙ c.size.index_size;
        store_size = c.size.store_size;
      };
      byte = λ j. elim (Bool-cases (b - 1 == j)) [
        | inl q ↦ let same : b - 1 ≡ j = ground arith in rw (← same) (inr n.0)
        | inr q ↦ elim (c.byte j) [
          | inl p ↦ inl (ground (arith, get_elem?-write_at 0 v (b - 1) j e.index room))
          | inr m ↦ inr m
        ]
      ];
      block = c.block;
    })
run_ops-IsCovered d e tid (store_op b v ∷ ops) l rs n c =
    let room : b - 1 < length e.store = let r = n.1 in let s = c.size.store_size in omega arith in
    run_ops-IsCovered d _ tid ops l rs n.2 (record {
      size = record {
        index_size = c.size.index_size;
        store_size = length-write_at zero_block v (b - 1) e.store room ∙ c.size.store_size;
      };
      byte = c.byte;
      block = λ j. elim (Bool-cases (b - 1 == j)) [
        | inl q ↦ let same : b - 1 ≡ j = ground arith in rw (← same) (inr n.0)
        | inr q ↦ elim (c.block j) [
          | inl p ↦
              inl λ a. ground (arith, get_elem?-write_at zero_block v (b - 1) j e.store room, p a)
          | inr m ↦ inr m
        ]
      ];
    })
