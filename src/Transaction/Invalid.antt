-- ===== src/Transaction/Invalid.antt =====
-- The tests of the block number in src/Transaction.cc, and the destructor.
use mathlib.Core.Path.{subst}
use system_t.Transaction.Refine.{after, request_of, changes, LetsCommit, commit_transaction-after}
use system_t.Transaction.Calls.{release_block, is_positive}
use system_t.Transaction.Commit.{Change, commit_ops}
use system_t.Transaction.Ending.{
  leave_scope, free_pointer, free_blocks, is_same, destroy, commit_transaction,
}
use system_t.Base.{
  ℕ, ◌≡◌, refl, ap, ◌∙◌, inl, inr, Bool, true, false, none, some, List, [], ◌∷◌, if◌then◌else◌,
  Option-cases,
}
use system_t.Map.{Map}
use system_t.Trq.{Trq, end, commit}
use system_t.Transaction.State.{
  Transaction, Ran, gives, throws, waits, faults, ends, spins, Act, ◌>>=◌, delete, te_abort,
  Pointer, Mblock,
}

-- A call that gives something leaves the disk alone.
abbrev KeepsDisk : {A : Type 0} → Transaction → Ran A → Type 0
KeepsDisk s (gives a s') = s'.disk ≡ s.disk
KeepsDisk s _ = Unit

KeepsDisk-bind :
    {A B : Type 0} (s : Transaction) (r : Ran A) (f : A → Act B)
    → KeepsDisk s r
    → ((a : A) (s' : Transaction) → KeepsDisk s' (f a s'))
    → KeepsDisk s (r >>= f)
KeepsDisk-bind {B = B} s (gives a t) f c k = from (f a t) (k a t)
  where
    from : (r : Ran B) → KeepsDisk t r → KeepsDisk s r
    from (gives b u) e = e ∙ c
    from (throws x u) e = tt
    from waits e = tt
    from faults e = tt
    from ends e = tt
    from spins e = tt
KeepsDisk-bind s (throws e t) f c k = tt
KeepsDisk-bind s waits f c k = tt
KeepsDisk-bind s faults f c k = tt
KeepsDisk-bind s ends f c k = tt
KeepsDisk-bind s spins f c k = tt

free_pointer-KeepsDisk : (p : Pointer) (s : Transaction) → KeepsDisk s (free_pointer p s)
unfolding free_pointer
free_pointer-KeepsDisk none s = refl
free_pointer-KeepsDisk (some p) s = elim (Option-cases (delete p s.heap)) [
  | inl e ↦ rw (e, free_pointer) tt
  | inr (h, e) ↦ rw (e, free_pointer) refl
]

free_blocks-KeepsDisk : (bm : Map Mblock) (s : Transaction) → KeepsDisk s (free_blocks bm s)
unfolding free_blocks
free_blocks-KeepsDisk [] s = refl
free_blocks-KeepsDisk ((b, mb) ∷ rest) s =
    KeepsDisk-bind s (if is_same mb.oldval mb.data_ then gives tt s else free_pointer mb.oldval s) _
      (old (is_same mb.oldval mb.data_))
      (λ _ s₁.
        KeepsDisk-bind s₁ (free_pointer mb.data_ s₁) _ (free_pointer-KeepsDisk mb.data_ s₁)
          (λ _ s₂. free_blocks-KeepsDisk rest s₂))
  where
    old : (same : Bool) → KeepsDisk s (if same then gives tt s else free_pointer mb.oldval s)
    old true = refl
    old false = free_pointer-KeepsDisk mb.oldval s

if_false : {A : Type 0} (b : Bool) (x y : A) → b ≡ false → (if b then x else y) ≡ y
if_false true x y e = absurd (cc)
if_false false x y e = refl

-- The state after a commit that was let through.
abbrev pub committed : List (ℕ × Change) → List Trq → Transaction → Transaction
committed cs later s = record (after (commit_ops cs) s) {
  replies = later;
  sent = request_of s end ∷ request_of s commit ∷ s.sent;
}

-- A transaction with pending changes gives a block number that is not positive to release. It is
-- aborted with TE_ABORT; but the destructor commits it first, if the monitor grants COMMIT and END
-- and the buffers can be freed: all its changes are on the disk.
pub invalid_block_commits :
    (block : ℕ) (cs : List (ℕ × Change)) (later : List Trq) (s s' : Transaction)
    → is_positive block ≡ false
    → s.error_occured ≡ false
    → changes s.blockmap s.heap ≡ some cs
    → LetsCommit s later
    → free_blocks s.blockmap (committed cs later s) ≡ gives tt s'
    → (leave_scope (release_block block s) ≡ throws te_abort s')
      × (s'.disk ≡ (after (commit_ops cs) s).disk)
unfolding leave_scope release_block destroy
invalid_block_commits block cs later s s' low fine known granted frees = (
  ap leave_scope (if_false (is_positive block) _ _ low) ∙ ap throw_on destroyed,
  subst (KeepsDisk (committed cs later s)) frees
      (free_blocks-KeepsDisk s.blockmap (committed cs later s)),
)
  where
    throw_on : Ran (Unit {0}) → Ran (Unit {0})
    throw_on r = elim r [
      | gives _ t ↦ throws te_abort t
      | throws _ _ ↦ ends
      | waits ↦ waits
      | faults ↦ faults
      | ends ↦ ends
      | spins ↦ spins
    ]

    destroyed : destroy s ≡ gives tt s'
    destroyed =
        ap (λ x. x >>= λ _ s₁. free_blocks s₁.blockmap s₁)
          (if_false s.error_occured (gives tt s) (commit_transaction s) fine
            ∙ commit_transaction-after s cs later known granted)
        ∙ frees
