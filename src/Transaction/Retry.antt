-- ===== src/Transaction/Retry.antt =====
-- Transaction::restart and backoff_sleep of src/Transaction.cc, and last_sleep.
use system_t.Config.{maxtimeout}
use system_t.Transaction.Calls.{abort_transaction, restart_transaction, ask_tpm, backoff_sleep}
use system_t.Base.{
  ℕ, zero, suc, ◌^◌, ◌≤◌, ◌<◌, ◌≡◌, refl, ◌∙◌, inl, inr, Bool, true, false, List, ◌∷◌, arith, ltb,
  if◌then◌else◌, Bool-cases, List-cases,
}
use system_t.Trq.{Request, Reply, Trq, ok, not_ok, die, restart}
use system_t.Transaction.State.{
  te_abort, te_restart, te_fail, Transaction, Ran, gives, throws, waits, faults, ends, spins, Act,
  ◌>>=◌,
}

-- A call leaves last_sleep alone, but for a restart, which adds one and happens below 6 only. No
-- call throws TE_FAIL or loops for ever.
abbrev pub Counts : {A : Type 0} → Transaction → Ran A → Type 0
Counts s (gives a s') = s'.last_sleep ≡ s.last_sleep
Counts s (throws te_abort s') = Unit
Counts s (throws te_restart s') = (s'.last_sleep ≡ suc s.last_sleep) × (s.last_sleep < 6)
Counts s (throws te_fail s') = ⊥
Counts s waits = Unit
Counts s faults = Unit
Counts s ends = Unit
Counts s spins = ⊥

module _ {A : Type 0} where
  pub Counts-from :
      (s s' : Transaction) (r : Ran A) → s'.last_sleep ≡ s.last_sleep → Counts s' r → Counts s r
  Counts-from s s' (gives a t) e c = c ∙ e
  Counts-from s s' (throws te_abort t) e c = tt
  Counts-from s s' (throws te_restart t) e c = (omega (arith, c.0), omega (arith, c.1))
  Counts-from s s' (throws te_fail t) e c = c
  Counts-from s s' waits e c = tt
  Counts-from s s' faults e c = tt
  Counts-from s s' ends e c = tt
  Counts-from s s' spins e c = c

pub Counts-bind :
    {A B : Type 0} (s : Transaction) (r : Ran A) (f : A → Act B)
    → Counts s r
    → ((a : A) (s' : Transaction) → Counts s' (f a s'))
    → Counts s (r >>= f)
Counts-bind s (gives a t) f c k = Counts-from s t (f a t) c (k a t)
Counts-bind s (throws te_abort t) f c k = tt
Counts-bind s (throws te_restart t) f c k = c
Counts-bind s (throws te_fail t) f c k = c
Counts-bind s waits f c k = tt
Counts-bind s faults f c k = tt
Counts-bind s ends f c k = tt
Counts-bind s spins f c k = c

pub Counts-if :
    {A : Type 0} (s : Transaction) (b : Bool) (x y : Ran A)
    → Counts s x
    → Counts s y
    → Counts s (if b then x else y)
Counts-if s true x y p q = p
Counts-if s false x y p q = q

pub ask_tpm-Counts : (r : Request) (b : ℕ) (s : Transaction) → Counts s (ask_tpm r b s)
unfolding ask_tpm abort_transaction
ask_tpm-Counts r b s = elim (List-cases s.replies) [
  | inl e ↦ rw (e, ask_tpm) tt
  | inr (t, later, e) ↦ rw (e, ask_tpm) (on_reply t.reply t later)
]
  where
    asking : List Trq → Transaction
    asking later = record s {
      replies = later;
      sent = record { tid = s.tid; pid = s.pid; request = r; reply = ok; block_no = b } ∷ s.sent;
    }

    on_reply :
        (a : Reply) (t : Trq) (later : List Trq)
        → Counts {A = Bool × Trq} s (elim a [
          | die ↦ abort_transaction (asking later)
          | ok ↦ gives (true, t) (asking later)
          | not_ok ↦ gives (false, t) (asking later)
        ])
    on_reply ok t later = refl
    on_reply not_ok t later = refl
    on_reply die t later = tt

big_power : (n : ℕ) → 64 ≤ 2 ^ suc (suc (suc (suc (suc (suc n)))))
big_power zero = omega arith
big_power (suc n) = omega (arith, big_power n)

small_power : (n : ℕ) → 2 ^ n ≤ 32 → n < 6
small_power zero h = omega arith
small_power (suc zero) h = omega arith
small_power (suc (suc zero)) h = omega arith
small_power (suc (suc (suc zero))) h = omega arith
small_power (suc (suc (suc (suc zero)))) h = omega arith
small_power (suc (suc (suc (suc (suc zero))))) h = omega arith
small_power (suc (suc (suc (suc (suc (suc n)))))) h = absurd (omega (arith, big_power n))

pub restart_transaction-Counts :
    (A : Type 0) (s : Transaction) → Counts s (restart_transaction {A = A} s)
unfolding restart_transaction backoff_sleep abort_transaction
restart_transaction-Counts A s =
    Counts-bind s (ask_tpm restart 0 s) _ (ask_tpm-Counts restart 0 s)
      (λ a s₁. Counts-if s₁ a.0 _ _ (after_sleep s₁) tt)
  where
    after_sleep :
        (s : Transaction)
        → Counts {A = A} s
            (backoff_sleep s >>= λ _ s₂. throws te_restart (record s₂ { error_occured = true }))
    after_sleep s = elim (Bool-cases (ltb s.last_sleep 32)) [
      | inl e ↦
          rw (e, backoff_sleep)
            (elim (Bool-cases (ltb maxtimeout (2 ^ s.last_sleep))) [
              | inl k ↦ rw k tt
              | inr k ↦ rw k (omega arith, small_power s.last_sleep (ground arith))
            ])
      | inr e ↦ rw (e, backoff_sleep) tt
    ]
