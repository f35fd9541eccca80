-- ===== src/Transaction/LeavesCalls.antt =====
-- The member functions of src/Transaction.cc and the files, which only commit writes to.
use system_t.Base.{ℕ, ◌≡◌, refl, Bool, true, false}
use system_t.Disk.{Block}
use system_t.Transaction.State.{Transaction, Ran, throws, te_abort}
use system_t.Transaction.Calls.{
  read_block, write_block, release_block, allocate_block, is_positive, abort_transaction,
}
use system_t.Transaction.Leaves.{
  Leaves, Leaves-bind, Leaves-from, restart_transaction-Leaves, ask_tpm-Leaves,
}
use system_t.Transaction.Steps.{
  Steps, read_block-P, write_block-P, release_block-P, allocate_block-P,
}

module _ (strict : Bool) where
  abbrev LeavesIn : (A : Type 0) → Transaction → Ran A → Type 0
  LeavesIn A s r = Leaves strict s r

  Leaves-Steps : Steps LeavesIn
  Leaves-Steps = record {
    gave = λ s t a k. k.disk;
    from = λ s t r k c. Leaves-from strict s t r k.disk c;
    bind = λ s r f c k. Leaves-bind strict s r f c k;
    faulted = λ A s. tt;
    aborted = λ A s. unfold abort_transaction in λ k. (refl, refl);
    asked = ask_tpm-Leaves strict;
    restarted = restart_transaction-Leaves strict;
  }

  pub allocate_block-Leaves : (fuel : ℕ) (s : Transaction) → Leaves strict s (allocate_block fuel s)
  allocate_block-Leaves = allocate_block-P LeavesIn Leaves-Steps (λ s. tt)

  -- The block number is positive, or it does not matter that TE_ABORT is thrown.
  module _ (b : ℕ) (s : Transaction) (positive : strict ≡ true → is_positive b ≡ true) where
    refused : (A : Type 0) → is_positive b ≡ false → Leaves strict {A = A} s (throws te_abort s)
    refused A e k = absurd (let p = positive k in cc)

    pub read_block-Leaves : Leaves strict s (read_block b s)
    read_block-Leaves = read_block-P LeavesIn Leaves-Steps b s refused

    pub write_block-Leaves :
        (oldval newval : Block) → Leaves strict s (write_block b oldval newval s)
    write_block-Leaves = write_block-P LeavesIn Leaves-Steps b s refused

    pub release_block-Leaves : Leaves strict s (release_block b s)
    release_block-Leaves = release_block-P LeavesIn Leaves-Steps b s refused
