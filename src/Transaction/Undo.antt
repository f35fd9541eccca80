-- ===== src/Transaction/Undo.antt =====
-- What undoing one record of a commit restores. Two disks hold the same data if their indices
-- agree, and their stores do on the blocks that are allocated.
use system_t.Base.{ℕ, ◌<◌, ◌≡◌, refl, ◌∙◌, ap, ◌≢◌, some, arith, ◌==◌, Bool-cases, inl, inr}
use system_t.Disk.{Block, allocated, unallocated, zero_block, length, get_elem?, write_at, Disk}
use system_t.Disk.Cells.{get_elem?-write_at, length-write_at}
use system_t.Transaction.Commit.{Change, allocates, writes, releases, reads}

pub record SameData (d e : Disk) : Type 0 where
  pub index_size : length e.index ≡ length d.index
  pub store_size : length e.store ≡ length d.store
  pub index : (j : ℕ) → get_elem? e.index j ≡ get_elem? d.index j
  pub store :
      (j : ℕ) → get_elem? d.index j ≡ some allocated → get_elem? e.store j ≡ get_elem? d.store j

-- The same but for one block.
pub record SameBut (i : ℕ) (d e : Disk) : Type 0 where
  pub index_size : length e.index ≡ length d.index
  pub store_size : length e.store ≡ length d.store
  pub index : (j : ℕ) → i ≢ j → get_elem? e.index j ≡ get_elem? d.index j
  pub store :
      (j : ℕ)
      → i ≢ j
      → get_elem? d.index j ≡ some allocated
      → get_elem? e.store j ≡ get_elem? d.store j

pub SameData-refl : (d : Disk) → SameData d d
SameData-refl d = record {
  index_size = refl;
  store_size = refl;
  index = λ j. refl;
  store = λ j _. refl;
}

pub SameBut-refl : (i : ℕ) (d : Disk) → SameBut i d d
SameBut-refl i d = record {
  index_size = refl;
  store_size = refl;
  index = λ j _. refl;
  store = λ j _ _. refl;
}

pub SameBut-trans : (i : ℕ) (d e f : Disk) → SameBut i d e → SameData e f → SameBut i d f
SameBut-trans i d e f p q = record {
  index_size = q.index_size ∙ p.index_size;
  store_size = q.store_size ∙ p.store_size;
  index = λ j n. q.index j ∙ p.index j n;
  store = λ j n a. q.store j (p.index j n ∙ a) ∙ p.store j n a;
}

pub SameData-trans : (d e f : Disk) → SameData d e → SameData e f → SameData d f
SameData-trans d e f p q = record {
  index_size = q.index_size ∙ p.index_size;
  store_size = q.store_size ∙ p.store_size;
  index = λ j. q.index j ∙ p.index j;
  store = λ j a. q.store j (p.index j ∙ a) ∙ p.store j a;
}

module _ (i : ℕ) (d e : Disk) (s : SameBut i d e) where
  pub put_index-SameBut :
      (c : ℕ) → i < length d.index → SameBut i d (record e { index = write_at 0 i c e.index })
  put_index-SameBut c room = record {
    index_size = length-write_at 0 c i e.index (rw s.index_size room) ∙ s.index_size;
    store_size = s.store_size;
    index = λ j n.
        ground (arith, get_elem?-write_at 0 c i j e.index (rw s.index_size room), s.index j n);
    store = s.store;
  }

  pub put_store-SameBut :
      (v : Block)
      → i < length d.store
      → SameBut i d (record e { store = write_at zero_block i v e.store })
  put_store-SameBut v room = record {
    index_size = s.index_size;
    store_size = length-write_at zero_block v i e.store (rw s.store_size room) ∙ s.store_size;
    index = s.index;
    store = λ j n a.
        ground (
          arith,
          get_elem?-write_at zero_block v i j e.store (rw s.store_size room),
          s.store j n a,
        );
  }

  -- The block itself is restored: its byte of the index, and its content if it is allocated.
  pub SameBut-SameData :
      get_elem? e.index i ≡ get_elem? d.index i
      → (get_elem? d.index i ≡ some allocated → get_elem? e.store i ≡ get_elem? d.store i)
      → SameData d e
  SameBut-SameData at_index at_store = record {
    index_size = s.index_size;
    store_size = s.store_size;
    index = λ j. elim (Bool-cases (i == j)) [
      | inl q ↦ let same : i ≡ j = ground arith in rw (← same) at_index
      | inr q ↦ s.index j (ground arith)
    ];
    store = λ j. elim (Bool-cases (i == j)) [
      | inl q ↦ let same : i ≡ j = ground arith in rw (← same) at_store
      | inr q ↦ s.store j (ground arith)
    ];
  }

-- What the block map says of the disk when commit begins: a block that is allocated here is free,
-- one that is written holds the old value, and one that is released has the old byte in the index
-- and, if that says allocated, the old value.
abbrev pub IsPending : Disk → ℕ → Change → Type 0
IsPending d i (allocates v) = (get_elem? d.index i ≡ some unallocated) × (i < length d.store)
IsPending d i (writes oindex old v) =
    (get_elem? d.index i ≡ some allocated) × (get_elem? d.store i ≡ some old)
IsPending d i (releases oindex old) =
    (get_elem? d.index i ≡ some oindex)
    × (i < length d.store)
    × (oindex ≡ allocated → get_elem? d.store i ≡ some old)
IsPending d i reads = Unit

-- Writes to one block leave the others as pending as they were.
pub IsPending-SameBut :
    (i j : ℕ) (d e : Disk) (c : Change) → SameBut i d e → i ≢ j → IsPending d j c → IsPending e j c
IsPending-SameBut i j d e (allocates v) s n p = (s.index j n ∙ p.0, rw s.store_size p.1)
IsPending-SameBut i j d e (writes oindex old v) s n p = (s.index j n ∙ p.0, s.store j n p.0 ∙ p.1)
IsPending-SameBut i j d e (releases oindex old) s n p =
    (s.index j n ∙ p.0, rw s.store_size p.1, λ a. s.store j n (p.0 ∙ ap some a) ∙ p.2 a)
IsPending-SameBut i j d e reads s n p = tt

pub IsPending-SameData :
    (j : ℕ) (d e : Disk) (c : Change) → SameData d e → IsPending d j c → IsPending e j c
IsPending-SameData j d e (allocates v) s p = (s.index j ∙ p.0, rw s.store_size p.1)
IsPending-SameData j d e (writes oindex old v) s p = (s.index j ∙ p.0, s.store j p.0 ∙ p.1)
IsPending-SameData j d e (releases oindex old) s p =
    (s.index j ∙ p.0, rw s.store_size p.1, λ a. s.store j (p.0 ∙ ap some a) ∙ p.2 a)
IsPending-SameData j d e reads s p = tt

pub SameData-of_eq : {d e : Disk} → e.index ≡ d.index → e.store ≡ d.store → SameData d e
SameData-of_eq p q = record {
  index_size = ap length p;
  store_size = ap length q;
  index = λ j. ap (λ file. get_elem? file j) p;
  store = λ j _. ap (λ file. get_elem? file j) q;
}
