-- ===== src/Transaction/Atomic.antt =====
-- The records that a part of commit of src/Transaction.cc has written, and undoing them.
use mathlib.Core.List.{reverse, reverse-cons}
use system_t.Base.{
  ℕ, zero, suc, ◌-◌, ◌<◌, ◌≡◌, refl, ◌≢◌, inl, inr, some, List, [], ◌∷◌, ◌++◌, arith, ◌==◌,
  if◌then◌else◌, Bool-cases,
}
use system_t.Disk.{Block, allocated, unallocated, zero_block, length, get_elem?, Logrecord, Disk}
use system_t.Disk.Cells.{get_elem?-write_at, lt-length_of_get_elem?}
use system_t.Log.Manager.{oldval_or_zero, undo_action, undo_rec, put_store, put_index}
use system_t.Transaction.Commit.{
  DiskOp, log_op, index_op, store_op, Change, allocates, writes, releases,
}
use system_t.Transaction.Undo.{
  SameData, SameBut, put_index-SameBut, put_store-SameBut, SameBut-SameData, IsPending,
  IsPending-SameBut, IsPending-SameData,
}

abbrev pub take {ℓ} : {A : Type ℓ} → ℕ → List A → List A
take zero xs = []
take (suc n) [] = []
take (suc n) (x ∷ xs) = x ∷ take n xs

-- The log records among some writes.
unfoldable pub records : ℕ → List DiskOp → List Logrecord
unfolding oldval_or_zero
records tid [] = []
records tid (log_op action b oindex old ∷ os) =
    record { tid = tid; action = action; block = b; oindex = oindex; oldval = oldval_or_zero old }
    ∷ records tid os
records tid (index_op b c ∷ os) = records tid os
records tid (store_op b v ∷ os) = records tid os

-- No other entry is about the block.
abbrev pub IsApart : ℕ → List (ℕ × Change) → Type 0
IsApart b [] = Unit
IsApart b ((b', c) ∷ rest) = (b ≢ b') × IsApart b rest

-- The entries of a block map are about different blocks, numbered from 1, each of them pending.
abbrev pub AllPending : Disk → List (ℕ × Change) → Type 0
AllPending d [] = Unit
AllPending d ((b, c) ∷ rest) = (0 < b) × IsPending d (b - 1) c × IsApart b rest × AllPending d rest

pub AllPending-SameBut :
    (b : ℕ) (d e : Disk) (cs : List (ℕ × Change))
    → 0 < b
    → SameBut (b - 1) d e
    → IsApart b cs
    → AllPending d cs
    → AllPending e cs
AllPending-SameBut b d e [] pos s a p = tt
AllPending-SameBut b d e ((b', c) ∷ cs) pos s a p = (
  p.0,
  IsPending-SameBut (b - 1) (b' - 1) d e c s (let n = a.0 in let q = p.0 in λ k. n (omega arith))
      p.1,
  p.2,
  AllPending-SameBut b d e cs pos s a.1 p.3,
)

pub AllPending-SameData :
    (d e : Disk) (cs : List (ℕ × Change)) → SameData d e → AllPending d cs → AllPending e cs
AllPending-SameData d e [] s p = tt
AllPending-SameData d e ((b, c) ∷ cs) s p =
    (p.0, IsPending-SameData (b - 1) d e c s p.1, p.2, AllPending-SameData d e cs s p.3)

pub undo_rec-append :
    (xs ys : List Logrecord) (d : Disk) → undo_rec (xs ++ ys) d ≡ undo_rec ys (undo_rec xs d)
unfolding undo_rec
undo_rec-append [] ys d = refl
undo_rec-append (x ∷ xs) ys d = undo_rec-append xs ys (undo_action x.action x d)

-- Undoing newest first ends with the oldest record.
pub undo_rec-reverse-cons :
    (r : Logrecord) (rs : List Logrecord) (d : Disk)
    → undo_rec (reverse (r ∷ rs)) d ≡ undo_action r.action r (undo_rec (reverse rs) d)
unfolding undo_rec
undo_rec-reverse-cons r rs d = rw (reverse-cons r rs) (undo_rec-append (reverse rs) (r ∷ []) d)

module _ (b : ℕ) (d e : Disk) (s : SameBut (b - 1) d e) where
  pub undo-allocates :
      (v : Block) → IsPending d (b - 1) (allocates v) → SameData d (put_index b unallocated e)
  undo-allocates v p =
      SameBut-SameData (b - 1) d (put_index b unallocated e)
        (put_index-SameBut (b - 1) d e s unallocated room)
        (ground
          (arith, get_elem?-write_at 0 unallocated (b - 1) (b - 1) e.index (rw s.index_size room)))
        (λ a. absurd (ground arith))
    where
      room : b - 1 < length d.index
      room = lt-length_of_get_elem? (b - 1) d.index unallocated p.0

  pub undo-writes :
      (oindex : ℕ) (old v : Block)
      → IsPending d (b - 1) (writes oindex old v)
      → get_elem? e.index (b - 1) ≡ get_elem? d.index (b - 1)
      → SameData d (put_store b old e)
  undo-writes oindex old v p kept =
      SameBut-SameData (b - 1) d (put_store b old e) (put_store-SameBut (b - 1) d e s old room) kept
        (λ a.
          ground (
            arith,
            get_elem?-write_at zero_block old (b - 1) (b - 1) e.store (rw s.store_size room),
          ))
    where
      room : b - 1 < length d.store
      room = lt-length_of_get_elem? (b - 1) d.store old p.1

  pub undo-releases :
      (oindex : ℕ) (old : Block)
      → IsPending d (b - 1) (releases oindex old)
      → SameData d (
          if oindex == allocated
          then put_store b old (put_index b oindex e)
          else put_index b oindex e)
  undo-releases oindex old p = elim (Bool-cases (oindex == allocated)) [
    | inl a ↦ rw a (
        SameBut-SameData (b - 1) d (put_store b old (put_index b oindex e))
          (put_store-SameBut (b - 1) d _ indexed old p.1) byte
          (λ _.
            let is_old : get_elem? d.store (b - 1) ≡ some old = p.2 (ground arith) in
            ground (
              arith,
              get_elem?-write_at zero_block old (b - 1) (b - 1) e.store (rw s.store_size p.1),
            )))
    | inr a ↦ rw a (
        SameBut-SameData (b - 1) d (put_index b oindex e) indexed byte
          (λ q. absurd (let at = p.0 in ground arith)))
  ]
    where
      room : b - 1 < length d.index
      room = lt-length_of_get_elem? (b - 1) d.index oindex p.0

      indexed : SameBut (b - 1) d (put_index b oindex e)
      indexed = put_index-SameBut (b - 1) d e s oindex room

      byte : get_elem? (put_index b oindex e).index (b - 1) ≡ get_elem? d.index (b - 1)
      byte =
          let at = p.0 in
          ground (arith, get_elem?-write_at 0 oindex (b - 1) (b - 1) e.index (rw s.index_size room))
