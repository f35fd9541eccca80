-- ===== src/Transaction/Leaves.antt =====
-- Transaction::ask_tpm and restart of src/Transaction.cc, and the files.
use system_t.Config.{maxtimeout}
use system_t.Base.{
  ℕ, ◌^◌, ◌≡◌, refl, ◌∙◌, inl, inr, Bool, true, false, List, ◌∷◌, ltb, if◌then◌else◌, Bool-cases,
  List-cases,
}
use system_t.Trq.{Request, Reply, Trq, ok, not_ok, die, restart}
use system_t.Transaction.State.{
  te_abort, te_restart, te_fail, Transaction, Ran, gives, throws, waits, faults, ends, spins, Act,
  ◌>>=◌,
}
use system_t.Transaction.Calls.{abort_transaction, restart_transaction, ask_tpm, backoff_sleep}

module _ (strict : Bool) where
  -- The files are as before, and where TE_RESTART is thrown, the object knows that it failed; if
  -- `strict`, also where TE_ABORT is.
  abbrev pub Leaves : {A : Type 0} → Transaction → Ran A → Type 0
  Leaves s (gives a t) = t.disk ≡ s.disk
  Leaves s (throws te_fail t) = ⊥
  Leaves s (throws te_abort t) = strict ≡ true → (t.disk ≡ s.disk) × (t.error_occured ≡ true)
  Leaves s (throws te_restart t) = (t.disk ≡ s.disk) × (t.error_occured ≡ true)
  Leaves s _ = Unit

  pub Leaves-from :
      {A : Type 0} (s s' : Transaction) (r : Ran A) → s'.disk ≡ s.disk → Leaves s' r → Leaves s r
  Leaves-from s s' (gives a t) e c = c ∙ e
  Leaves-from s s' (throws te_abort t) e c = λ k. ((c k).0 ∙ e, (c k).1)
  Leaves-from s s' (throws te_restart t) e c = (c.0 ∙ e, c.1)
  Leaves-from s s' (throws te_fail t) e c = c
  Leaves-from s s' waits e c = tt
  Leaves-from s s' faults e c = tt
  Leaves-from s s' ends e c = tt
  Leaves-from s s' spins e c = tt

  pub Leaves-bind :
      {A B : Type 0} (s : Transaction) (r : Ran A) (f : A → Act B)
      → Leaves s r
      → ((a : A) (s' : Transaction) → Leaves s' (f a s'))
      → Leaves s (r >>= f)
  Leaves-bind s (gives a t) f c k = Leaves-from s t (f a t) c (k a t)
  Leaves-bind s (throws te_abort t) f c k = c
  Leaves-bind s (throws te_restart t) f c k = c
  Leaves-bind s (throws te_fail t) f c k = c
  Leaves-bind s waits f c k = tt
  Leaves-bind s faults f c k = tt
  Leaves-bind s ends f c k = tt
  Leaves-bind s spins f c k = tt

  pub Leaves-if :
      {A : Type 0} (s : Transaction) (b : Bool) (x y : Ran A)
      → Leaves s x
      → Leaves s y
      → Leaves s (if b then x else y)
  Leaves-if s true x y p q = p
  Leaves-if s false x y p q = q

  pub ask_tpm-Leaves : (r : Request) (b : ℕ) (s : Transaction) → Leaves s (ask_tpm r b s)
  unfolding ask_tpm abort_transaction
  ask_tpm-Leaves r b s = elim (List-cases s.replies) [
    | inl e ↦ rw (e, ask_tpm) tt
    | inr (t, later, e) ↦ rw (e, ask_tpm) (on_reply t.reply t later)
  ]
    where
      asking : List Trq → Transaction
      asking later = record s {
        replies = later;
        sent = record { tid = s.tid; pid = s.pid; request = r; reply = ok; block_no = b } ∷ s.sent;
      }

      on_reply :
          (a : Reply) (t : Trq) (later : List Trq)
          → Leaves {A = Bool × Trq} s (elim a [
            | die ↦ abort_transaction (asking later)
            | ok ↦ gives (true, t) (asking later)
            | not_ok ↦ gives (false, t) (asking later)
          ])
      on_reply ok t later = refl
      on_reply not_ok t later = refl
      on_reply die t later = λ k. (refl, refl)

  pub restart_transaction-Leaves :
      (A : Type 0) (s : Transaction) → Leaves s (restart_transaction {A = A} s)
  unfolding restart_transaction backoff_sleep abort_transaction
  restart_transaction-Leaves A s =
      Leaves-bind s (ask_tpm restart 0 s) _ (ask_tpm-Leaves restart 0 s)
        (λ a s₁. Leaves-if s₁ a.0 _ _ (after_sleep s₁) (λ k. (refl, refl)))
    where
      after_sleep :
          (s : Transaction)
          → Leaves {A = A} s
              (backoff_sleep s >>= λ _ s₂. throws te_restart (record s₂ { error_occured = true }))
      after_sleep s = elim (Bool-cases (ltb s.last_sleep 32)) [
        | inl e ↦
            rw (e, backoff_sleep)
              (elim (Bool-cases (ltb maxtimeout (2 ^ s.last_sleep))) [
                | inl k ↦ rw k (λ _. (refl, refl))
                | inr k ↦ rw k (refl, refl)
              ])
        | inr e ↦ rw (e, backoff_sleep) tt
      ]
