-- ===== src/Transaction/CountCalls.antt =====
-- The member functions of src/Transaction.cc and last_sleep.
use system_t.Base.{ℕ}
use system_t.Disk.{Block}
use system_t.Transaction.State.{Transaction, Ran}
use system_t.Transaction.Calls.{read_block, write_block, release_block, abort_transaction}
use system_t.Transaction.Retry.{
  Counts, Counts-bind, Counts-from, restart_transaction-Counts, ask_tpm-Counts,
}
use system_t.Transaction.Steps.{Steps, read_block-P, write_block-P, release_block-P}

abbrev CountsIn : (A : Type 0) → Transaction → Ran A → Type 0
CountsIn A s r = Counts s r

Counts-Steps : Steps CountsIn
Counts-Steps = record {
  gave = λ s t a k. k.last_sleep;
  from = λ s t r k c. Counts-from s t r k.last_sleep c;
  bind = λ s r f c k. Counts-bind s r f c k;
  faulted = λ A s. tt;
  aborted = λ A s. unfold abort_transaction in tt;
  asked = ask_tpm-Counts;
  restarted = restart_transaction-Counts;
}

module _ (b : ℕ) (s : Transaction) where
  pub read_block-Counts : Counts s (read_block b s)
  read_block-Counts = read_block-P CountsIn Counts-Steps b s (λ A e. tt)

  pub write_block-Counts : (oldval newval : Block) → Counts s (write_block b oldval newval s)
  write_block-Counts = write_block-P CountsIn Counts-Steps b s (λ A e. tt)

  pub release_block-Counts : Counts s (release_block b s)
  release_block-Counts = release_block-P CountsIn Counts-Steps b s (λ A e. tt)
