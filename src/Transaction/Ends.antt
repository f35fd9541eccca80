-- ===== src/Transaction/Ends.antt =====
-- What calls give where they end: lemmas for the allocation of a block.
use system_t.Config.{maxtimeout}
use system_t.Transaction.Calls.{ask_tpm, restart_transaction, backoff_sleep, abort_transaction}
use system_t.Base.{
  ℕ, ◌≡◌, refl, inl, inr, Bool, true, false, List, ◌∷◌, if◌then◌else◌, List-cases, ltb, ◌^◌,
}
use system_t.Trq.{Request, Reply, Trq, ok, not_ok, die, restart}
use system_t.Transaction.State.{
  Transaction, Ran, gives, throws, waits, faults, ends, spins, Act, ◌>>=◌,
}

-- A call does not loop for ever, and what it gives has a property.
abbrev pub Ends : {A : Type 0} → (A → Transaction → Type 0) → Ran A → Type 0
Ends G (gives a s) = G a s
Ends G spins = ⊥
Ends G _ = Unit

pub Ends-bind :
    {A B : Type 0} (G : A → Transaction → Type 0) (H : B → Transaction → Type 0) (r : Ran A)
    (f : A → Act B)
    → Ends G r
    → ((a : A) (s : Transaction) → G a s → Ends H (f a s))
    → Ends H (r >>= f)
Ends-bind G H (gives a s) f g k = k a s g
Ends-bind G H (throws e s) f g k = tt
Ends-bind G H waits f g k = tt
Ends-bind G H faults f g k = tt
Ends-bind G H ends f g k = tt
Ends-bind G H spins f g k = g

pub Ends-if :
    {A : Type 0} (G : A → Transaction → Type 0) (b : Bool) (x y : Ran A)
    → (b ≡ true → Ends G x)
    → (b ≡ false → Ends G y)
    → Ends G (if b then x else y)
Ends-if G true x y p q = p refl
Ends-if G false x y p q = q refl

-- A request changes neither the disk nor last_free_block.
abbrev pub IsStill : Transaction → Transaction → Type 0
IsStill s s' = (s'.disk ≡ s.disk) × (s'.last_free_block ≡ s.last_free_block)

pub ask_tpm-Ends :
    (r : Request) (b : ℕ) (s : Transaction) → Ends (λ _ s'. IsStill s s') (ask_tpm r b s)
unfolding ask_tpm abort_transaction
ask_tpm-Ends r b s = elim (List-cases s.replies) [
  | inl e ↦ rw (e, ask_tpm) tt
  | inr (t, later, e) ↦ rw (e, ask_tpm) (on_reply t.reply t later)
]
  where
    asking : List Trq → Transaction
    asking later = record s {
      replies = later;
      sent = record { tid = s.tid; pid = s.pid; request = r; reply = ok; block_no = b } ∷ s.sent;
    }

    on_reply :
        (a : Reply) (t : Trq) (later : List Trq)
        → Ends {A = Bool × Trq}
            (λ _ s'. IsStill s s')
            (elim a [
              | die ↦ abort_transaction (asking later)
              | ok ↦ gives (true, t) (asking later)
              | not_ok ↦ gives (false, t) (asking later)
            ])
    on_reply ok t later = (refl, refl)
    on_reply not_ok t later = (refl, refl)
    on_reply die t later = tt

backoff_sleep-Ends : (s : Transaction) → Ends (λ _ _. Unit {0}) (backoff_sleep s)
unfolding backoff_sleep abort_transaction
backoff_sleep-Ends s =
    Ends-if (λ _ _. Unit {0}) (ltb s.last_sleep 32) _ faults
      (λ _. Ends-if (λ _ _. Unit {0}) (ltb maxtimeout (2 ^ s.last_sleep)) _ _ (λ _. tt) (λ _. tt))
      (λ _. tt)

pub restart_transaction-Ends :
    {A : Type 0} (G : A → Transaction → Type 0) (s : Transaction)
    → Ends G (restart_transaction {A = A} s)
unfolding restart_transaction abort_transaction
restart_transaction-Ends {A} G s =
    Ends-bind {A = Bool × Trq} {B = A} (λ _ s'. IsStill s s') G (ask_tpm restart 0 s) _
      (ask_tpm-Ends restart 0 s)
      (λ a s₁ _.
        Ends-if G a.0 _ _
          (λ _.
            Ends-bind (λ _ _. Unit {0}) G (backoff_sleep s₁) _ (backoff_sleep-Ends s₁)
              (λ _ _ _. tt))
          (λ _. tt))
