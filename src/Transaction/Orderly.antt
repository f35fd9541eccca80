-- ===== src/Transaction/Orderly.antt =====
-- The calls to read, write and release of src/Transaction.cc, and what they ask the monitor for.
use mathlib.Core.Path.{subst}
use system_t.Base.{
  ℕ, ◌-◌, ◌≡◌, refl, inl, inr, true, none, some, List, Option-cases, sym, if◌then◌else◌, ◌∙◌,
}
use system_t.Map.{find, insert, modify}
use system_t.Trq.{Trq, read, write, release}
use system_t.Disk.{Block, get_elem?}
use system_t.Monitor.Policy.Evict.{Member}
use system_t.Monitor.LoneLocks.{reads, writes, releases}
use system_t.Transaction.State.{
  Locktype, a_lock, r_lock, w_lock, s_lock, Mblock, Transaction, Ran, gives, throws, faults,
  te_abort,
}
use system_t.Transaction.Calls.{
  ask_access, read_block, write_block, release_block, write_stored, release_stored, write_buffered,
  release_buffered, drop_data, is_positive, is_s_lock, abort_transaction,
}
use system_t.Transaction.Asking.{Gives, Gives-bind, Gives-if, Asks, ask_access-Asks, OnDisk}
use system_t.Transaction.Held.{
  IsOrderly, takes-IsOrderly, drop_data-IsOrderly, unwritten, Held-modify, is_r_lock,
}

module _ (c : ℕ) (base : List Trq) where
  -- Orderly, whatever the blocks that it writes.
  abbrev pub StaysOrderly : {A : Type 0} → A → Transaction → Type 0
  StaysOrderly a t = (written : List ℕ) × IsOrderly c base written t

  module _ (written : List ℕ) (b : ℕ) (s : Transaction) (k : IsOrderly c base written s) where
    checked :
        {A : Type 0} (r : Ran A)
        → Gives StaysOrderly r
        → Gives StaysOrderly (if is_positive b then r else throws te_abort s)
    checked r p = Gives-if StaysOrderly (is_positive b) _ _ p tt

    write_stored-StaysOrderly :
        (old new : Block) → ¬ Member b written → Gives StaysOrderly (write_stored b old new s)
    unfolding write_stored
    write_stored-StaysOrderly old new fresh =
        Gives-bind (λ _ t. Asks write b s t × OnDisk write b s k.granted) StaysOrderly
          (ask_access write b s) _ (ask_access-Asks write b s k.granted)
          (λ _ t (asks, d). (
            _,
            takes-IsOrderly c base written write b s t _ _ k writes fresh (λ e. refl)
                (λ e. inr (rw asks.disk d)) asks,
          ))

    release_stored-StaysOrderly : ¬ Member b written → Gives StaysOrderly (release_stored b s)
    unfolding release_stored
    release_stored-StaysOrderly fresh =
        Gives-bind (λ _ t. Asks release b s t × OnDisk release b s k.granted) StaysOrderly
          (ask_access release b s) _ (ask_access-Asks release b s k.granted)
          (λ _ t (asks, d). elim (Option-cases (get_elem? t.disk.store (b - 1))) [
            | inl e ↦ rw e tt
            | inr (v, e) ↦ rw e (
              _,
              takes-IsOrderly c base written release b s t _ _ k releases fresh (λ e. refl)
                  (λ e. inr (rw asks.disk d)) asks,
            )
          ])

    -- The lock of the entry is a read lock, so that the monitor has not been asked to write.
    only_read : (mb : Mblock) → find b s.blockmap ≡ some mb → mb.lock ≡ r_lock → ¬ Member b written
    only_read mb at l = unwritten c base written b s k (λ q f.
        let same : mb ≡ q = (let z = sym at ∙ f in cc) in
        subst (λ x. is_r_lock x.lock ≡ true) same (rw l refl))

  module _ (written : List ℕ) (b : ℕ) (s : Transaction) (k : IsOrderly c base written s) where
    pub read_block-StaysOrderly : Gives StaysOrderly (read_block b s)
    unfolding read_block abort_transaction
    read_block-StaysOrderly = checked written b s k _ (elim (Option-cases (find b s.blockmap)) [
      | inl e ↦ rw e (
          Gives-bind (λ _ t. Asks read b s t × OnDisk read b s k.granted) StaysOrderly
            (ask_access read b s) _ (ask_access-Asks read b s k.granted)
            (λ _ t (asks, d). elim (Option-cases (get_elem? t.disk.store (b - 1))) [
              | inl x ↦ rw x tt
              | inr (v, x) ↦ rw x (
                _,
                takes-IsOrderly c base written read b s t _ _ k reads
                    (unwritten c base written b s k (λ q f. cc)) (λ n. absurd (n refl))
                    (λ n. absurd (n refl)) asks,
              )
            ]))
      | inr (mb, e) ↦ rw e (Gives-if StaysOrderly (is_s_lock mb.lock) _ _ tt (written, k))
    ])

    write_local-StaysOrderly :
        (mb : Mblock) (new : Block)
        → Gives StaysOrderly (elim mb.data_ as (λ _. Ran Block) [
          | none ↦ faults
          | some p ↦ elim (find p s.heap.buffers) [
            | none ↦ faults
            | some v ↦
                gives v
                  (record s { heap = record (s.heap) { buffers = insert p new s.heap.buffers } })
          ]
        ])
    write_local-StaysOrderly mb new = elim (Option-cases mb.data_) [
      | inl e ↦ rw e tt
      | inr (p, e) ↦ rw e (elim (Option-cases (find p s.heap.buffers)) [
        | inl x ↦ rw x tt
        | inr (v, x) ↦ rw x (
          written,
          record {
            self = k.self;
            log = k.log;
            holds = k.holds;
            used = k.used;
            granted = k.granted;
          },
        )
      ])
    ]

    write_buffered-StaysOrderly :
        (l : Locktype) (mb : Mblock) (old new : Block)
        → find b s.blockmap ≡ some mb
        → mb.lock ≡ l
        → Gives StaysOrderly (write_buffered l b mb old new s)
    unfolding write_buffered abort_transaction
    write_buffered-StaysOrderly s_lock mb old new at l = tt
    write_buffered-StaysOrderly r_lock mb old new at l =
        Gives-bind (λ _ t. IsOrderly c base written t) StaysOrderly (drop_data b mb s) _
          (drop_data-IsOrderly c base written b mb s k)
          (λ _ t k'.
            write_stored-StaysOrderly written b t k' old new (only_read written b s k mb at l))
    write_buffered-StaysOrderly a_lock mb old new at l = write_local-StaysOrderly mb new
    write_buffered-StaysOrderly w_lock mb old new at l = write_local-StaysOrderly mb new

    pub write_block-StaysOrderly : (old new : Block) → Gives StaysOrderly (write_block b old new s)
    unfolding write_block
    write_block-StaysOrderly old new =
        checked written b s k _ (elim (Option-cases (find b s.blockmap)) [
          | inl e ↦ rw e (
              write_stored-StaysOrderly written b s k old new
                (unwritten c base written b s k (λ q f. cc)))
          | inr (mb, e) ↦ rw e (write_buffered-StaysOrderly mb.lock mb old new e refl)
        ])

    s_locked :
        IsOrderly c base written
          (record s { blockmap = modify b (λ q. record q { lock = s_lock }) s.blockmap })
    s_locked = record {
      self = k.self;
      log = k.log;
      used = k.used;
      holds =
          Held-modify written b (λ q. record q { lock = s_lock }) s.blockmap (λ q z. refl) k.holds;
      granted = k.granted;
    }

    release_buffered-StaysOrderly :
        (l : Locktype) (mb : Mblock)
        → find b s.blockmap ≡ some mb
        → mb.lock ≡ l
        → Gives StaysOrderly (release_buffered l b mb s)
    unfolding release_buffered
    release_buffered-StaysOrderly r_lock mb at l =
        Gives-bind (λ _ t. IsOrderly c base written t) StaysOrderly (drop_data b mb s) _
          (drop_data-IsOrderly c base written b mb s k)
          (λ _ t k'. release_stored-StaysOrderly written b t k' (only_read written b s k mb at l))
    release_buffered-StaysOrderly a_lock mb at l = (written, s_locked)
    release_buffered-StaysOrderly w_lock mb at l = (written, s_locked)
    release_buffered-StaysOrderly s_lock mb at l = (written, s_locked)

    pub release_block-StaysOrderly : Gives StaysOrderly (release_block b s)
    unfolding release_block
    release_block-StaysOrderly = checked written b s k _ (elim (Option-cases (find b s.blockmap)) [
      | inl e ↦
          rw e
            (release_stored-StaysOrderly written b s k (unwritten c base written b s k (λ q f. cc)))
      | inr (mb, e) ↦ rw e (release_buffered-StaysOrderly mb.lock mb e refl)
    ])
