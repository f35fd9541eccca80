-- ===== src/Transaction/Parts.antt =====
-- commit and the destructor of src/Transaction.cc under a property that their parts have.
use system_t.Base.{ℕ, inl, inr, Bool, true, false, none, some, [], ◌∷◌, if◌then◌else◌, Option-cases}
use system_t.Map.{Map}
use system_t.Trq.{Request, Trq, commit, end}
use system_t.Disk.{Disk, LogAction, blank, lwrite, lrelease, lbegin, lend, allocated, lallocate}
use system_t.Log.Manager.{LogManager}
use system_t.Transaction.State.{
  te_abort, Locktype, a_lock, r_lock, w_lock, s_lock, Pointer, Mblock, Heap, Transaction, Ran,
  gives, throws, faults, Act, ◌>>=◌, delete, deref,
}
use system_t.Transaction.Calls.{abort_transaction, ask_tpm}
use system_t.Transaction.Ending.{
  commit_blocks, log_old, commit_transaction, free_pointer, write_store, destroy, free_blocks,
  commit_mblock, write_log, write_index, is_same,
}

pub record Freeing (P : (A : Type 0) → Transaction → Ran A → Type 0) : Type 1 where
  pub freed : (s : Transaction) (h : Heap) → P (Unit {0}) s (gives tt (record s { heap = h }))
  pub bind :
      {A B : Type 0} (s : Transaction) (r : Ran A) (f : A → Act B)
      → P A s r
      → ((a : A) (t : Transaction) → P B t (f a t))
      → P B s (r >>= f)
  pub faulted : (A : Type 0) (s : Transaction) → P A s faults

pub record Committing (P : (A : Type 0) → Transaction → Ran A → Type 0) : Type 1 where
  pub freeing : Freeing P
  pub wrote :
      {A : Type 0} (s : Transaction) (l : LogManager) (d : Disk) (r : Ran A)
      → P A (record s { logger = l; disk = d }) r
      → P A s r
  pub thrown : (A : Type 0) (s : Transaction) → P A s (throws te_abort s)
  pub aborted : (A : Type 0) (s : Transaction) → P A s (abort_transaction s)
  pub asked : (r : Request) (b : ℕ) (s : Transaction) → P (Bool × Trq) s (ask_tpm r b s)

either :
    (P : (A : Type 0) → Transaction → Ran A → Type 0) {A : Type 0} (s : Transaction) (b : Bool)
    (x y : Ran A)
    → P A s x
    → P A s y
    → P A s (if b then x else y)
either P s true x y p q = p
either P s false x y p q = q

module _ (P : (A : Type 0) → Transaction → Ran A → Type 0) (parts : Freeing P) where
  done : (s : Transaction) → P (Unit {0}) s (gives tt s)
  done s = parts.freed s s.heap

  free_pointer-P : (p : Pointer) (s : Transaction) → P (Unit {0}) s (free_pointer p s)
  unfolding free_pointer
  free_pointer-P none s = done s
  free_pointer-P (some p) s = elim (Option-cases (delete p s.heap)) [
    | inl e ↦ rw (e, free_pointer) (parts.faulted (Unit {0}) s)
    | inr (h, e) ↦ rw (e, free_pointer) (parts.freed s h)
  ]

  pub free_blocks-P : (bm : Map Mblock) (s : Transaction) → P (Unit {0}) s (free_blocks bm s)
  unfolding free_blocks
  free_blocks-P [] s = done s
  free_blocks-P ((b, mb) ∷ rest) s =
      parts.bind s (if is_same mb.oldval mb.data_ then gives tt s else free_pointer mb.oldval s) _
        (either P s (is_same mb.oldval mb.data_) (gives tt s) (free_pointer mb.oldval s) (done s)
          (free_pointer-P mb.oldval s))
        (λ _ s₁.
          parts.bind s₁ (free_pointer mb.data_ s₁) _ (free_pointer-P mb.data_ s₁)
            (λ _ s₂. free_blocks-P rest s₂))

module _ (P : (A : Type 0) → Transaction → Ran A → Type 0) (parts : Committing P) where
  gone_on : (s : Transaction) → P (Unit {0}) s (gives tt s)
  gone_on = done P parts.freeing

  write_store-P : (b : ℕ) (p : Pointer) (s : Transaction) → P (Unit {0}) s (write_store b p s)
  unfolding write_store
  write_store-P b none s = parts.aborted (Unit {0}) s
  write_store-P b (some p) s = elim (Option-cases (deref (some p) s.heap)) [
    | inl e ↦ rw (e, write_store) (parts.freeing.faulted (Unit {0}) s)
    | inr (v, e) ↦ rw (e, write_store) (parts.wrote s s.logger _ _ (gone_on _))
  ]

  log_old-P :
      (a : LogAction) (b : ℕ) (mb : Mblock) (s : Transaction) → P (Unit {0}) s (log_old a b mb s)
  unfolding log_old write_log
  log_old-P a b mb s = elim (Option-cases mb.oldval) [
    | inl e ↦ rw (e, log_old) (parts.wrote s _ _ _ (gone_on _))
    | inr (p, e) ↦
        rw (e, log_old)
          (elim (Option-cases (deref (some p) s.heap)) [
            | inl k ↦ rw k (parts.freeing.faulted (Unit {0}) s)
            | inr (v, k) ↦ rw k (parts.wrote s _ _ _ (gone_on _))
          ])
  ]

  commit_mblock-P :
      (l : Locktype) (b : ℕ) (mb : Mblock) (s : Transaction)
      → P (Unit {0}) s (commit_mblock l b mb s)
  unfolding commit_mblock write_index write_log
  commit_mblock-P a_lock b mb s =
      parts.wrote s _ _ _
        (write_store-P b mb.data_ (write_index b allocated (write_log lallocate b blank none s)))
  commit_mblock-P w_lock b mb s =
      parts.freeing.bind s (log_old lwrite b mb s) _ (log_old-P lwrite b mb s)
        (λ _ s₁. write_store-P b mb.data_ s₁)
  commit_mblock-P s_lock b mb s =
      parts.freeing.bind s (log_old lrelease b mb s) _ (log_old-P lrelease b mb s)
        (λ _ s₁. parts.wrote s₁ s₁.logger _ _ (gone_on _))
  commit_mblock-P r_lock b mb s = parts.wrote s _ _ _ (gone_on _)

  commit_blocks-P : (bm : Map Mblock) (s : Transaction) → P (Unit {0}) s (commit_blocks bm s)
  unfolding commit_blocks
  commit_blocks-P [] s = gone_on s
  commit_blocks-P ((b, mb) ∷ rest) s =
      parts.freeing.bind s (commit_mblock mb.lock b mb s) _ (commit_mblock-P mb.lock b mb s)
        (λ _ s₁. commit_blocks-P rest s₁)

  commit_transaction-P : (s : Transaction) → P (Unit {0}) s (commit_transaction s)
  unfolding commit_transaction write_log
  commit_transaction-P s =
      parts.freeing.bind s (ask_tpm commit 0 s) _ (parts.asked commit 0 s) (λ a s₁.
        either P s₁ a.0 _ _
          (parts.freeing.bind s₁ (commit_blocks s₁.blockmap (write_log lbegin 0 blank none s₁)) _
            (parts.wrote s₁ _ _ _ (commit_blocks-P s₁.blockmap (write_log lbegin 0 blank none s₁)))
            (λ _ s₂.
              parts.freeing.bind s₂ (ask_tpm end 0 (write_log lend 0 blank none s₂)) _
                (parts.wrote s₂ _ _ _ (parts.asked end 0 (write_log lend 0 blank none s₂)))
                (λ k s₃.
                  either P s₃ k.0 (gives tt s₃) (throws te_abort s₃) (gone_on s₃)
                    (parts.thrown (Unit {0}) s₃))))
          (parts.aborted (Unit {0}) s₁))

  pub destroy-P : (s : Transaction) → P (Unit {0}) s (destroy s)
  unfolding destroy
  destroy-P s =
      parts.freeing.bind s (if s.error_occured then gives tt s else commit_transaction s) _
        (either P s s.error_occured (gives tt s) (commit_transaction s) (gone_on s)
          (commit_transaction-P s))
        (λ _ s₁. free_blocks-P P parts.freeing s₁.blockmap s₁)
