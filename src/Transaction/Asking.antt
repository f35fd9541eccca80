-- ===== src/Transaction/Asking.antt =====
-- What src/Transaction.cc asks the monitor for, when the replies are OK.
use mathlib.Core.Path.{subst}
use system_t.Base.{
  ℕ, ◌-◌, ap, ◌≡◌, refl, sym, ◌∙◌, inl, inr, Bool, true, false, none, some, ◌∷◌, arith, ◌==◌, ltb,
  if◌then◌else◌, Option-cases, Bool-cases, List-cases,
}
use system_t.Config.{nblocks}
use system_t.Trq.{Request, Trq, ok}
use system_t.Disk.{get_elem?, allocated}
use system_t.Monitor.Session.{AllOk}
use system_t.Transaction.State.{
  Transaction, Ran, gives, throws, waits, faults, ends, spins, Act, ◌>>=◌,
}
use system_t.Transaction.Calls.{ask_tpm, is_allocated, ask_access, abort_transaction}

-- The value and the state that a piece of code gives, if it gives one.
abbrev pub Gives : {A : Type 0} → (A → Transaction → Type 0) → Ran A → Type 0
Gives P (gives a t) = P a t
Gives P _ = Unit

pub Gives-bind :
    {A B : Type 0} (P : A → Transaction → Type 0) (Q : B → Transaction → Type 0) (r : Ran A)
    (f : A → Act B)
    → Gives P r
    → ((a : A) (t : Transaction) → P a t → Gives Q (f a t))
    → Gives Q (r >>= f)
Gives-bind P Q (gives a t) f p k = k a t p
Gives-bind P Q (throws e t) f p k = tt
Gives-bind P Q waits f p k = tt
Gives-bind P Q faults f p k = tt
Gives-bind P Q ends f p k = tt
Gives-bind P Q spins f p k = tt

pub Gives-if :
    {A : Type 0} (P : A → Transaction → Type 0) (b : Bool) (x y : Ran A)
    → Gives P x
    → Gives P y
    → Gives P (if b then x else y)
Gives-if P true x y p q = p
Gives-if P false x y p q = q

-- One message more, and its reply less.
pub record Asks (r : Request) (b : ℕ) (s t : Transaction) : Type 0 where
  pub tid : t.tid ≡ s.tid
  pub blockmap : t.blockmap ≡ s.blockmap
  pub disk : t.disk ≡ s.disk
  pub last_free_block : t.last_free_block ≡ s.last_free_block
  pub sent :
      t.sent ≡ record { tid = s.tid; pid = s.pid; request = r; reply = ok; block_no = b } ∷ s.sent
  pub granted : AllOk t.replies

module _ (r : Request) (b : ℕ) (s : Transaction) (all : AllOk s.replies) where
  pub ask_tpm-Asks : Gives (λ a t. (a.0 ≡ true) × Asks r b s t) (ask_tpm r b s)
  unfolding ask_tpm
  ask_tpm-Asks = elim (List-cases s.replies) [
    | inl e ↦ rw (e, ask_tpm) tt
    | inr (a, later, e) ↦
        let good : AllOk (a ∷ later) = subst AllOk e all in
        rw (e, ask_tpm)
          (rw good.0 (
            refl,
            record {
              tid = refl;
              blockmap = refl;
              disk = refl;
              last_free_block = refl;
              sent = refl;
              granted = good.1;
            },
          ))
  ]

  abbrev pub OnDisk : Type 0
  OnDisk = get_elem? s.disk.index (b - 1) ≡ some allocated

  is_allocated-OnDisk : Gives (λ known t. (t ≡ s) × (known ≡ true → OnDisk)) (is_allocated b s)
  unfolding is_allocated
  is_allocated-OnDisk =
      Gives-if (λ known t. (t ≡ s) × (known ≡ true → OnDisk)) (ltb nblocks b) _ _ (refl, λ e. cc)
        (elim (Option-cases (get_elem? s.disk.index (b - 1))) [
          | inl e ↦ rw e tt
          | inr (x, e) ↦
              subst
                (λ o.
                  Gives (λ known t. (t ≡ s) × (known ≡ true → OnDisk))
                    (elim o as (λ _. Ran Bool) [
                      | none ↦ faults
                      | some stat ↦ gives (stat == allocated) s
                    ]))
                (sym e) (refl, λ z. e ∙ ap some (ground arith))
        ])

  pub ask_access-Asks : Gives (λ _ t. Asks r b s t × OnDisk) (ask_access r b s)
  unfolding ask_access abort_transaction
  ask_access-Asks =
      Gives-bind (λ (known : Bool) t. (t ≡ s) × (known ≡ true → OnDisk)) _ (is_allocated b s) _
        is_allocated-OnDisk
        (λ known t (e, d). elim (Bool-cases known) [
          | inl z ↦
              rw (z, e)
                (Gives-bind (λ (a : Bool × Trq) t. (a.0 ≡ true) × Asks r b s t) _ (ask_tpm r b s) _
                  ask_tpm-Asks (λ a s₂ (g, k). rw g (k, d z)))
          | inr z ↦ rw z tt
        ])
