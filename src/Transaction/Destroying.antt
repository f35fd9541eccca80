-- ===== src/Transaction/Destroying.antt =====
-- The constructor, the destructor and commit of src/Transaction.cc, the files and the exceptions.
use mathlib.Core.Path.{subst}
use system_t.Base.{ℕ, ◌≡◌, refl, sym, inl, inr, Bool, true, false, [], if◌then◌else◌, List-cases}
use system_t.Trq.{Request, Reply, Trq, begin, ok, not_ok, die}
use system_t.Log.Manager.{open_log}
use system_t.Transaction.State.{
  te_abort, te_restart, te_fail, Transaction, Ran, gives, throws, waits, faults, ends, spins, Act,
  ◌>>=◌,
}
use system_t.Transaction.Calls.{abort_transaction, ask_tpm}
use system_t.Transaction.Ending.{construct, destroy, commit_transaction}
use system_t.Transaction.Leaves.{Leaves, Leaves-bind, Leaves-from, Leaves-if, ask_tpm-Leaves}
use system_t.Transaction.Parts.{Freeing, destroy-P, free_blocks-P}

-- The only exception is TE_ABORT.
abbrev pub OnlyAborts : (A : Type 0) → Transaction → Ran A → Type 0
OnlyAborts A s (throws te_restart t) = ⊥
OnlyAborts A s (throws te_fail t) = ⊥
OnlyAborts A s _ = Unit

OnlyAborts-bind :
    {A B : Type 0} (s : Transaction) (r : Ran A) (f : A → Act B)
    → OnlyAborts A s r
    → ((a : A) (t : Transaction) → OnlyAborts B t (f a t))
    → OnlyAborts B s (r >>= f)
OnlyAborts-bind {A} {B} s (gives a t) f c k = k a t
OnlyAborts-bind s (throws te_abort t) f c k = tt
OnlyAborts-bind s (throws te_restart t) f c k = c
OnlyAborts-bind s (throws te_fail t) f c k = c
OnlyAborts-bind s waits f c k = tt
OnlyAborts-bind s faults f c k = tt
OnlyAborts-bind s ends f c k = tt
OnlyAborts-bind s spins f c k = tt

ask_tpm-OnlyAborts :
    (r : Request) (b : ℕ) (s : Transaction) → OnlyAborts (Bool × Trq) s (ask_tpm r b s)
unfolding ask_tpm abort_transaction
ask_tpm-OnlyAborts r b s = elim (List-cases s.replies) [
  | inl e ↦ rw (e, ask_tpm) tt
  | inr (t, later, e) ↦ rw (e, ask_tpm) (on_reply t.reply t _)
]
  where
    on_reply :
        (a : Reply) (t : Trq) (s' : Transaction)
        → OnlyAborts (Bool × Trq) s (elim a [
          | die ↦ abort_transaction s'
          | ok ↦ gives (true, t) s'
          | not_ok ↦ gives (false, t) s'
        ])
    on_reply ok t s' = tt
    on_reply not_ok t s' = tt
    on_reply die t s' = tt

pub destroy-OnlyAborts : (s : Transaction) → OnlyAborts (Unit {0}) s (destroy s)
destroy-OnlyAborts = destroy-P OnlyAborts (record {
  freeing = record {
    freed = λ s h. tt;
    bind = λ s r f c k. OnlyAborts-bind s r f c k;
    faulted = λ A s. tt;
  };
  wrote = λ s l d r c. c;
  thrown = λ A s. tt;
  aborted = λ A s. unfold abort_transaction in tt;
  asked = ask_tpm-OnlyAborts;
})

module _ (strict : Bool) where
  abbrev LeavesIn : (A : Type 0) → Transaction → Ran A → Type 0
  LeavesIn A s r = Leaves strict s r

  Leaves-Freeing : Freeing LeavesIn
  Leaves-Freeing = record {
    freed = λ s h. refl;
    bind = λ s r f c k. Leaves-bind strict s r f c k;
    faulted = λ A s. tt;
  }

  -- The destructor of an object that knows that it failed only frees buffers.
  pub destroy-Leaves : (s : Transaction) → s.error_occured ≡ true → Leaves strict s (destroy s)
  unfolding destroy
  destroy-Leaves s e =
      Leaves-bind strict s (if s.error_occured then gives tt s else commit_transaction s) _
        (subst (λ b. Leaves strict s (if b then gives tt s else commit_transaction s)) (sym e) refl)
        (λ _ s₁. free_blocks-P LeavesIn Leaves-Freeing s₁.blockmap s₁)

  pub construct-Leaves : (s : Transaction) → Leaves strict s (construct s)
  unfolding construct
  construct-Leaves s =
      let s₀ : Transaction = record s {
        tid = 0;
        error_occured = false;
        last_free_block = 0;
        blockmap = [];
        logger = open_log;
      } in
      Leaves-bind strict {A = Bool × Trq} {B = Unit {0}} s (ask_tpm begin 0 s₀) _
        (Leaves-from strict s s₀ (ask_tpm begin 0 s₀) refl (ask_tpm-Leaves strict begin 0 s₀))
        (λ a s₁.
          Leaves-if strict {A = Unit {0}} s₁ a.0 (gives tt (record s₁ { tid = a.1.tid })) ends refl
            tt)
