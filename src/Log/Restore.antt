-- ===== src/Log/Restore.antt =====
-- undo_rec of src/LogManager.cc on records that hold the data of an earlier disk, in any order.
use mathlib.Core.Path.{subst}
use system_t.Base.{
  ℕ, ◌-◌, ◌<◌, ◌≡◌, ◌∙◌, ◌⊎◌, inl, inr, Bool, true, false, some, List, [], ◌∷◌, arith, ◌==◌,
  Bool-cases, ◌++◌,
}
use system_t.Disk.{
  allocated, unallocated, zero_block, length, get_elem?, write_at, LogAction, lwrite, lallocate,
  lrelease, Logrecord, Disk,
}
use system_t.Disk.Cells.{get_elem?-write_at, length-write_at, lt-length_of_get_elem?}
use system_t.Log.Manager.{undo_action, undo_rec}

-- The second disk has the byte of the index, and the block of the store where it is allocated, that
-- the first one has.
abbrev pub SameByte : Disk → ℕ → Disk → Type 0
SameByte d j e = get_elem? e.index j ≡ get_elem? d.index j

abbrev pub SameBlock : Disk → ℕ → Disk → Type 0
SameBlock d j e = get_elem? d.index j ≡ some allocated → get_elem? e.store j ≡ get_elem? d.store j

pub record SameSize (d e : Disk) : Type 0 where
  pub index_size : length e.index ≡ length d.index
  pub store_size : length e.store ≡ length d.store

-- Undoing a record with this action writes a byte of the index, or a block of the store (a block that
-- is free again needs no content).
abbrev pub marks : LogAction → Bool
marks lallocate = true
marks lrelease = true
marks _ = false

abbrev pub fills : LogAction → Bool
fills lwrite = true
fills lallocate = true
fills lrelease = true
fills _ = false

-- A record holds what the disk had before it: a block that was written its old value, a block that
-- was allocated was free, and one that was released had this byte and, if allocated, this value.
abbrev pub HoldsOld : LogAction → Disk → Logrecord → Type 0
HoldsOld lwrite d r = get_elem? d.store (r.block - 1) ≡ some r.oldval
HoldsOld lallocate d r = get_elem? d.index (r.block - 1) ≡ some unallocated
HoldsOld lrelease d r =
    (get_elem? d.index (r.block - 1) ≡ some r.oindex)
    × (r.block - 1 < length d.store)
    × (r.oindex ≡ allocated → get_elem? d.store (r.block - 1) ≡ some r.oldval)
HoldsOld _ d r = Unit

-- Undoing keeps what is the same already, and makes the same what the record is about.
pub record Undoes (d : Disk) (a : LogAction) (r : Logrecord) (e e' : Disk) : Type 0 where
  pub size : SameSize d e'
  pub byte : (j : ℕ) → SameByte d j e → SameByte d j e'
  pub block : (j : ℕ) → SameBlock d j e → SameBlock d j e'
  pub marked : marks a ≡ true → SameByte d (r.block - 1) e'
  pub filled : fills a ≡ true → SameBlock d (r.block - 1) e'

-- A byte that is written back.
module _ (d e : Disk) (i c : ℕ) (at : get_elem? d.index i ≡ some c)
    (room : i < length e.index) where
  write_back : (j : ℕ) → SameByte d j e → get_elem? (write_at 0 i c e.index) j ≡ get_elem? d.index j
  write_back j p = ground (arith, get_elem?-write_at 0 c i j e.index room)

  write_back_self : get_elem? (write_at 0 i c e.index) i ≡ get_elem? d.index i
  write_back_self = ground (arith, get_elem?-write_at 0 c i i e.index room)

module _ (d : Disk) (r : Logrecord) (e : Disk) (s : SameSize d e) where
  undo-write : HoldsOld lwrite d r → Undoes d lwrite r e (undo_action lwrite r e)
  unfolding undo_action
  undo-write h =
      let i = r.block - 1 in
      let room = lt-length_of_get_elem? i d.store r.oldval h in
      let room' : i < length e.store = omega (arith, room, s.store_size) in
      record {
        size = record {
          index_size = s.index_size;
          store_size = length-write_at zero_block r.oldval i e.store room' ∙ s.store_size;
        };
        byte = λ j p. p;
        block =
            λ j p q. ground (arith, get_elem?-write_at zero_block r.oldval i j e.store room', p q);
        marked = λ m. absurd (cc);
        filled = λ _ q. ground (arith, get_elem?-write_at zero_block r.oldval i i e.store room');
      }

  undo-allocate : HoldsOld lallocate d r → Undoes d lallocate r e (undo_action lallocate r e)
  unfolding undo_action
  undo-allocate h =
      let i = r.block - 1 in
      let room = lt-length_of_get_elem? i d.index unallocated h in
      let room' : i < length e.index = omega (arith, room, s.index_size) in
      record {
        size = record {
          index_size = length-write_at 0 unallocated i e.index room' ∙ s.index_size;
          store_size = s.store_size;
        };
        byte = write_back d e i unallocated h room';
        block = λ j p. p;
        marked = λ _. write_back_self d e i unallocated h room';
        filled = λ _ q. absurd (ground arith);
      }

  undo-release : HoldsOld lrelease d r → Undoes d lrelease r e (undo_action lrelease r e)
  unfolding undo_action
  undo-release h = elim (Bool-cases (r.oindex == allocated)) [
    | inl a ↦ rw a (record {
      size = record {
        index_size = length-write_at 0 r.oindex i e.index index_room ∙ s.index_size;
        store_size = length-write_at zero_block r.oldval i e.store store_room ∙ s.store_size;
      };
      byte = write_back d e i r.oindex h.0 index_room;
      block = λ j p q.
          let old = h.2 (ground arith) in
          ground (arith, get_elem?-write_at zero_block r.oldval i j e.store store_room, p q);
      marked = λ _. write_back_self d e i r.oindex h.0 index_room;
      filled = λ _ q.
          let old = h.2 (ground arith) in
          ground (arith, get_elem?-write_at zero_block r.oldval i i e.store store_room);
    })
    | inr a ↦ rw a (record {
      size = record {
        index_size = length-write_at 0 r.oindex i e.index index_room ∙ s.index_size;
        store_size = s.store_size;
      };
      byte = write_back d e i r.oindex h.0 index_room;
      block = λ j p. p;
      marked = λ _. write_back_self d e i r.oindex h.0 index_room;
      filled = λ _ q. absurd (let at = h.0 in ground arith);
    })
  ]
    where
      i : ℕ
      i = r.block - 1

      index_room : i < length e.index
      index_room =
          let room = lt-length_of_get_elem? i d.index r.oindex h.0 in omega (arith, s.index_size)

      store_room : i < length e.store
      store_room = let room = h.1 in omega (arith, s.store_size)

  pub undo_action-Undoes : (a : LogAction) → HoldsOld a d r → Undoes d a r e (undo_action a r e)
  unfolding undo_action
  undo_action-Undoes lwrite h = unfold undo_action in undo-write h
  undo_action-Undoes lallocate h = undo-allocate h
  undo_action-Undoes lrelease h = undo-release h
  undo_action-Undoes _ h = record {
    size = s;
    byte = λ j p. p;
    block = λ j p. p;
    marked = λ m. absurd (cc);
    filled = λ m. absurd (cc);
  }

-- What a list of records is about.
abbrev pub AllHoldOld : Disk → List Logrecord → Type 0
AllHoldOld d [] = Unit
AllHoldOld d (r ∷ rs) = HoldsOld r.action d r × AllHoldOld d rs

-- A record among them that undoing writes the byte, or the block, by.
abbrev pub Among : (LogAction → Bool) → ℕ → List Logrecord → Type 0
Among test j [] = ⊥
Among test j (r ∷ rs) = ((test r.action ≡ true) × (r.block - 1 ≡ j)) ⊎ Among test j rs

-- Where the disk differs, some record is about the difference.
pub record IsCovered (d : Disk) (rs : List Logrecord) (e : Disk) : Type 0 where
  pub size : SameSize d e
  pub byte : (j : ℕ) → SameByte d j e ⊎ Among marks j rs
  pub block : (j : ℕ) → SameBlock d j e ⊎ Among fills j rs

IsCovered-step :
    (d e : Disk) (r : Logrecord) (rs : List Logrecord)
    → HoldsOld r.action d r
    → IsCovered d (r ∷ rs) e
    → IsCovered d rs (undo_action r.action r e)
IsCovered-step d e r rs h c =
    let u = undo_action-Undoes d r e c.size r.action h in
    record {
      size = u.size;
      byte = λ j. elim (c.byte j) [
        | inl p ↦ inl (u.byte j p)
        | inr (inl (t, at)) ↦
            inl (subst (λ k. SameByte d k (undo_action r.action r e)) at (u.marked t))
        | inr (inr m) ↦ inr m
      ];
      block = λ j. elim (c.block j) [
        | inl p ↦ inl (u.block j p)
        | inr (inl (t, at)) ↦
            inl (subst (λ k. SameBlock d k (undo_action r.action r e)) at (u.filled t))
        | inr (inr m) ↦ inr m
      ];
    }

-- The order does not matter: when all the records are undone, no difference is left over.
pub undo_rec-IsCovered :
    (d e : Disk) (rs more : List Logrecord)
    → AllHoldOld d rs
    → IsCovered d (rs ++ more) e
    → IsCovered d more (undo_rec rs e)
unfolding undo_rec
undo_rec-IsCovered d e [] more h c = c
undo_rec-IsCovered d e (r ∷ rs) more h c =
    undo_rec-IsCovered d (undo_action r.action r e) rs more h.1
      (IsCovered-step d e r (rs ++ more) h.0 c)
