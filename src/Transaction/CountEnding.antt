-- ===== src/Transaction/CountEnding.antt =====
-- Commit, the destructor and the constructor of src/Transaction.cc, and last_sleep.
use system_t.Base.{refl, Bool, false, []}
use system_t.Trq.{Trq, begin}
use system_t.Log.Manager.{open_log}
use system_t.Transaction.State.{Transaction, Ran, gives, ends}
use system_t.Transaction.Calls.{abort_transaction, ask_tpm}
use system_t.Transaction.Ending.{construct, destroy}
use system_t.Transaction.Retry.{Counts, Counts-if, Counts-bind, Counts-from, ask_tpm-Counts}
use system_t.Transaction.Parts.{Committing, destroy-P}

abbrev CountsIn : (A : Type 0) → Transaction → Ran A → Type 0
CountsIn A s r = Counts s r

Counts-Committing : Committing CountsIn
Counts-Committing = record {
  freeing = record {
    freed = λ s h. refl;
    bind = λ s r f c k. Counts-bind s r f c k;
    faulted = λ A s. tt;
  };
  wrote = λ s l d r c. Counts-from s (record s { logger = l; disk = d }) r refl c;
  thrown = λ A s. tt;
  aborted = λ A s. unfold abort_transaction in tt;
  asked = ask_tpm-Counts;
}

pub destroy-Counts : (s : Transaction) → Counts s (destroy s)
destroy-Counts = destroy-P CountsIn Counts-Committing

pub construct-Counts : (s : Transaction) → Counts s (construct s)
unfolding construct
construct-Counts s =
    let s₀ : Transaction = record s {
      tid = 0;
      error_occured = false;
      last_free_block = 0;
      blockmap = [];
      logger = open_log;
    } in
    Counts-bind {A = Bool × Trq} {B = Unit {0}} s (ask_tpm begin 0 s₀) _
      (Counts-from s s₀ (ask_tpm begin 0 s₀) refl (ask_tpm-Counts begin 0 s₀))
      (λ a s₁.
        Counts-if {A = Unit {0}} s₁ a.0 (gives tt (record s₁ { tid = a.1.tid })) ends refl tt)
