-- ===== src/Transaction/Steps.antt =====
-- The member functions of src/Transaction.cc under a property that their parts have: one proof for
-- every such property of how a piece of the library ends.
use system_t.Config.{nblocks}
use system_t.Base.{
  ℕ, zero, suc, ◌+◌, ◌-◌, ◌≡◌, refl, inl, inr, Bool, true, false, none, some, ltb, if◌then◌else◌,
  Option-cases, Bool-cases,
}
use system_t.Map.{find, insert}
use system_t.Trq.{Request, Trq, write, release, read, allocate}
use system_t.Disk.{Block, get_elem?}
use system_t.Transaction.State.{
  te_abort, Locktype, a_lock, r_lock, w_lock, s_lock, Pointer, Mblock, Transaction, Ran, gives,
  throws, faults, spins, Act, ◌>>=◌, delete,
}
use system_t.Transaction.Calls.{
  ask_access, read_block, is_allocated, write_block, drop_data, write_stored, release_buffered,
  release_stored, find_free_block, allocate_block, write_buffered, release_block, abort_transaction,
  ask_tpm, is_positive, is_s_lock, next_free, drop, restart_transaction,
}

-- The files and last_sleep are as before.
pub record SameFiles (s t : Transaction) : Type 0 where
  pub disk : t.disk ≡ s.disk
  pub last_sleep : t.last_sleep ≡ s.last_sleep

pub record Steps (P : (A : Type 0) → Transaction → Ran A → Type 0) : Type 1 where
  pub gave : {A : Type 0} (s t : Transaction) (a : A) → SameFiles s t → P A s (gives a t)
  pub from : {A : Type 0} (s t : Transaction) (r : Ran A) → SameFiles s t → P A t r → P A s r
  pub bind :
      {A B : Type 0} (s : Transaction) (r : Ran A) (f : A → Act B)
      → P A s r
      → ((a : A) (t : Transaction) → P B t (f a t))
      → P B s (r >>= f)
  pub faulted : (A : Type 0) (s : Transaction) → P A s faults
  pub aborted : (A : Type 0) (s : Transaction) → P A s (abort_transaction s)
  pub asked : (r : Request) (b : ℕ) (s : Transaction) → P (Bool × Trq) s (ask_tpm r b s)
  pub restarted : (A : Type 0) (s : Transaction) → P A s (restart_transaction s)

module _ (P : (A : Type 0) → Transaction → Ran A → Type 0) (steps : Steps P) where
  either :
      {A : Type 0} (s : Transaction) (b : Bool) (x y : Ran A)
      → P A s x
      → P A s y
      → P A s (if b then x else y)
  either s true x y p q = p
  either s false x y p q = q

  same : {A : Type 0} (s : Transaction) (a : A) → P A s (gives a s)
  same s a = steps.gave s s a (record { disk = refl; last_sleep = refl })

  is_allocated-P : (b : ℕ) (s : Transaction) → P Bool s (is_allocated b s)
  unfolding is_allocated
  is_allocated-P b s =
      either s (ltb nblocks b) _ _ (same s false)
        (elim (Option-cases (get_elem? s.disk.index (b - 1))) [
          | inl e ↦ rw e (steps.faulted Bool s)
          | inr (c, e) ↦ rw e (same s _)
        ])

  ask_access-P : (r : Request) (b : ℕ) (s : Transaction) → P (Unit {0}) s (ask_access r b s)
  unfolding ask_access
  ask_access-P r b s = steps.bind s (is_allocated b s) _ (is_allocated-P b s) (λ known s₁.
      either s₁ known _ _
        (steps.bind s₁ (ask_tpm r b s₁) _ (steps.asked r b s₁)
          (λ a s₂. either s₂ a.0 _ _ (same s₂ tt) (steps.restarted (Unit {0}) s₂)))
        (steps.aborted (Unit {0}) s₁))

  drop_data-P : (b : ℕ) (mb : Mblock) (s : Transaction) → P (Unit {0}) s (drop_data b mb s)
  unfolding drop_data
  drop_data-P b mb s = elim (Option-cases mb.data_) [
    | inl e ↦ rw (e, drop_data) (same s tt)
    | inr (p, e) ↦
        rw (e, drop_data)
          (elim (Option-cases (delete p s.heap)) [
            | inl k ↦ rw k (steps.faulted (Unit {0}) s)
            | inr (h, k) ↦ rw k (steps.gave s _ tt (record { disk = refl; last_sleep = refl }))
          ])
  ]

  write_stored-P :
      (b : ℕ) (oldval newval : Block) (s : Transaction) → P Block s (write_stored b oldval newval s)
  unfolding write_stored
  write_stored-P b oldval newval s =
      steps.bind s (ask_access write b s) _ (ask_access-P write b s)
        (λ _ s₁. steps.gave s₁ _ _ (record { disk = refl; last_sleep = refl }))

  release_stored-P : (b : ℕ) (s : Transaction) → P (Unit {0}) s (release_stored b s)
  unfolding release_stored
  release_stored-P b s = steps.bind s (ask_access release b s) _ (ask_access-P release b s) (λ _ s₁.
      elim (Option-cases (get_elem? s₁.disk.store (b - 1))) [
        | inl k ↦ rw k (steps.faulted (Unit {0}) s₁)
        | inr (v, k) ↦ rw k (steps.gave s₁ _ tt (record { disk = refl; last_sleep = refl }))
      ])

  write_local-P :
      (mb : Mblock) (newval : Block) (s : Transaction)
      → P Block s (elim mb.data_ [
        | none ↦ faults
        | some p ↦ elim (find p s.heap.buffers) [
          | none ↦ faults
          | some v ↦
              gives v
                (record s { heap = record (s.heap) { buffers = insert p newval s.heap.buffers } })
        ]
      ])
  write_local-P mb newval s = elim (Option-cases mb.data_) [
    | inl e ↦ rw e (steps.faulted Block s)
    | inr (p, e) ↦ rw e (elim (Option-cases (find p s.heap.buffers)) [
      | inl k ↦ rw k (steps.faulted Block s)
      | inr (v, k) ↦ rw k (steps.gave s _ v (record { disk = refl; last_sleep = refl }))
    ])
  ]

  write_buffered-P :
      (l : Locktype) (b : ℕ) (mb : Mblock) (oldval newval : Block) (s : Transaction)
      → P Block s (write_buffered l b mb oldval newval s)
  unfolding write_buffered
  write_buffered-P s_lock b mb oldval newval s = steps.aborted Block s
  write_buffered-P r_lock b mb oldval newval s =
      steps.bind s (drop_data b mb s) _ (drop_data-P b mb s)
        (λ _ s₁. write_stored-P b oldval newval s₁)
  write_buffered-P a_lock b mb oldval newval s = write_local-P mb newval s
  write_buffered-P w_lock b mb oldval newval s = write_local-P mb newval s

  release_buffered-P :
      (l : Locktype) (b : ℕ) (mb : Mblock) (s : Transaction)
      → P (Unit {0}) s (release_buffered l b mb s)
  unfolding release_buffered
  release_buffered-P r_lock b mb s =
      steps.bind s (drop_data b mb s) _ (drop_data-P b mb s) (λ _ s₁. release_stored-P b s₁)
  release_buffered-P a_lock b mb s = steps.gave s _ tt (record { disk = refl; last_sleep = refl })
  release_buffered-P w_lock b mb s = steps.gave s _ tt (record { disk = refl; last_sleep = refl })
  release_buffered-P s_lock b mb s = steps.gave s _ tt (record { disk = refl; last_sleep = refl })

  find_free_block-P : (s : Transaction) → P ℕ s (find_free_block s)
  unfolding find_free_block
  find_free_block-P s =
      let (n, found) = next_free (drop s.last_free_block s.disk.index) (s.last_free_block + 1) in
      let s' : Transaction = record s { last_free_block = n } in
      let kept : SameFiles s s' = record { disk = refl; last_sleep = refl } in
      either s found (gives n s') (restart_transaction s') (steps.gave s s' n kept)
        (steps.from s s' (restart_transaction s') kept (steps.restarted ℕ s'))

  pub allocate_block-P :
      (spun : (s : Transaction) → P ℕ s spins) (fuel : ℕ) (s : Transaction)
      → P ℕ s (allocate_block fuel s)
  unfolding allocate_block
  allocate_block-P spun zero s = spun s
  allocate_block-P spun (suc fuel) s =
      steps.bind s (find_free_block s) _ (find_free_block-P s) (λ fblock s₁.
        steps.bind s₁ (ask_tpm allocate fblock s₁) _ (steps.asked allocate fblock s₁) (λ a s₂.
          either s₂ a.0 _ _ (steps.gave s₂ _ fblock (record { disk = refl; last_sleep = refl }))
            (allocate_block-P spun fuel s₂)))

  -- The call with a block number that is not positive.
  module _ (b : ℕ) (s : Transaction)
      (invalid : (A : Type 0) → is_positive b ≡ false → P A s (throws te_abort s)) where
    checked :
        {A : Type 0} (r : Ran A) → P A s r → P A s (if is_positive b then r else throws te_abort s)
    checked {A} r p = elim (Bool-cases (is_positive b)) [
      | inl e ↦ rw e p
      | inr e ↦ rw e (invalid A e)
    ]

    pub read_block-P : P Pointer s (read_block b s)
    unfolding read_block
    read_block-P = checked _ (elim (Option-cases (find b s.blockmap)) [
      | inl e ↦ rw e (
          steps.bind s (ask_access read b s) _ (ask_access-P read b s) (λ _ s₁.
            elim (Option-cases (get_elem? s₁.disk.store (b - 1))) [
              | inl k ↦ rw k (steps.faulted Pointer s₁)
              | inr (v, k) ↦ rw k (steps.gave s₁ _ _ (record { disk = refl; last_sleep = refl }))
            ]))
      | inr (mb, e) ↦
          rw e (either s (is_s_lock mb.lock) _ _ (steps.aborted Pointer s) (same s mb.data_))
    ])

    pub write_block-P : (oldval newval : Block) → P Block s (write_block b oldval newval s)
    unfolding write_block
    write_block-P oldval newval = checked _ (elim (Option-cases (find b s.blockmap)) [
      | inl e ↦ rw e (write_stored-P b oldval newval s)
      | inr (mb, e) ↦ rw e (write_buffered-P mb.lock b mb oldval newval s)
    ])

    pub release_block-P : P (Unit {0}) s (release_block b s)
    unfolding release_block
    release_block-P = checked _ (elim (Option-cases (find b s.blockmap)) [
      | inl e ↦ rw e (release_stored-P b s)
      | inr (mb, e) ↦ rw e (release_buffered-P mb.lock b mb s)
    ])
