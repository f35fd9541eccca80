-- ===== src/Transaction/Traceless.antt =====
-- Passes from Begin to End of src/Transaction.hh that end with an exception of the code between them.
use system_t.Base.{ℕ, zero, suc, ◌≡◌, refl, ◌∙◌, ◌≢◌, Bool, true}
use system_t.Transaction.State.{
  TransactionException, te_abort, te_restart, te_fail, Transaction, Ran, gives, throws, waits,
  faults, ends, spins, Act, ◌>>=◌,
}
use system_t.Transaction.Ending.{construct, destroy, leave_scope, attempt, begin_end}
use system_t.Transaction.Leaves.{Leaves}
use system_t.Transaction.Destroying.{
  OnlyAborts, destroy-OnlyAborts, destroy-Leaves, construct-Leaves,
}

-- There is one pass that ended so, from the same files.
abbrev pub OnePass : Act (Unit {0}) → Transaction → Transaction → Type 0
OnePass body s s' = (t : Transaction) × (t.disk ≡ s.disk) × (attempt body t ≡ gives tt s')

module _ (strict : Bool) where
  -- A pass that is to be repeated has left the files alone.
  abbrev Repeats : Transaction → Ran (Unit {0}) → Type 0
  Repeats s (throws te_restart t) = t.disk ≡ s.disk
  Repeats s (throws te_fail t) = ⊥
  Repeats s _ = Unit

  Repeats-from :
      (s s' : Transaction) (r : Ran (Unit {0})) → s'.disk ≡ s.disk → Repeats s' r → Repeats s r
  Repeats-from s s' (throws te_restart t) e c = c ∙ e
  Repeats-from s s' (throws te_abort t) e c = tt
  Repeats-from s s' (throws te_fail t) e c = c
  Repeats-from s s' _ e c = tt

  committed-Repeats :
      (s : Transaction) (r : Ran (Unit {0})) → OnlyAborts (Unit {0}) s r → Repeats s r
  committed-Repeats s (throws te_restart t) c = absurd c
  committed-Repeats s (throws te_abort t) c = tt
  committed-Repeats s (throws te_fail t) c = c
  committed-Repeats s _ c = tt

  -- What leave_scope makes of an exception, when the destructor has run.
  abbrev after_destructor : TransactionException → Ran (Unit {0}) → Ran (Unit {0})
  after_destructor e r = elim r [
    | gives _ s' ↦ throws e s'
    | throws _ _ ↦ ends
    | waits ↦ waits
    | faults ↦ faults
    | ends ↦ ends
    | spins ↦ spins
  ]

  -- The pass gives no result, and if an exception leaves it, it has left the files alone (for TE_ABORT
  -- only if `strict`).
  abbrev pub Fails : Transaction → Ran (Unit {0}) → Type 0
  Fails s (gives a t) = ⊥
  Fails s (throws te_fail t) = ⊥
  Fails s (throws te_abort t) = strict ≡ true → t.disk ≡ s.disk
  Fails s (throws te_restart t) = t.disk ≡ s.disk
  Fails s _ = Unit

  Fails-Repeats : (s : Transaction) (r : Ran (Unit {0})) → Fails s r → Repeats s r
  Fails-Repeats s (throws te_restart t) c = c
  Fails-Repeats s (throws te_abort t) c = tt
  Fails-Repeats s (throws te_fail t) c = c
  Fails-Repeats s _ c = tt

  Fails-from : (s s' : Transaction) (r : Ran (Unit {0})) → s'.disk ≡ s.disk → Fails s' r → Fails s r
  Fails-from s s' (gives a t) e c = c
  Fails-from s s' (throws te_restart t) e c = c ∙ e
  Fails-from s s' (throws te_abort t) e c = λ k. c k ∙ e
  Fails-from s s' (throws te_fail t) e c = c
  Fails-from s s' _ e c = tt

  -- When an object that threw has to know that it failed.
  abbrev NeedsFlag : TransactionException → Type 0
  NeedsFlag te_abort = strict ≡ true
  NeedsFlag te_restart = Unit
  NeedsFlag te_fail = Unit

  thrown-Fails :
      (s t : Transaction) (e : TransactionException) (r : Ran (Unit {0}))
      → Leaves strict {A = Unit {0}} s (throws e t)
      → (NeedsFlag e → Leaves strict {A = Unit {0}} t r)
      → Fails s (after_destructor e r)
  thrown-Fails s t te_abort (gives a u) c k = λ f. k f ∙ (c f).0
  thrown-Fails s t te_restart (gives a u) c k = k tt ∙ c.0
  thrown-Fails s t te_fail (gives a u) c k = c
  thrown-Fails s t e (throws f u) c k = tt
  thrown-Fails s t e _ c k = tt

  knows :
      (s t : Transaction) (e : TransactionException)
      → Leaves strict {A = Unit {0}} s (throws e t)
      → NeedsFlag e
      → t.error_occured ≡ true
  knows s t te_abort c f = (c f).1
  knows s t te_restart c f = c.1
  knows s t te_fail c f = absurd c

  leave_scope-Fails :
      (s t : Transaction) (e : TransactionException)
      → Leaves strict {A = Unit {0}} s (throws e t)
      → Fails s (leave_scope (throws e t))
  unfolding leave_scope
  leave_scope-Fails s t e c =
      thrown-Fails s t e (destroy t) c (λ f. destroy-Leaves strict t (knows s t e c f))

  leave_scope-Repeats :
      (s : Transaction) (r : Ran (Unit {0})) → Leaves strict s r → Repeats s (leave_scope r)
  unfolding leave_scope
  leave_scope-Repeats s (gives a t) c = committed-Repeats s (destroy t) (destroy-OnlyAborts t)
  leave_scope-Repeats s (throws e t) c = Fails-Repeats s _ (leave_scope-Fails s t e c)
  leave_scope-Repeats s waits c = tt
  leave_scope-Repeats s faults c = tt
  leave_scope-Repeats s ends c = tt
  leave_scope-Repeats s spins c = tt

  Repeats-bind :
      (s : Transaction) (r : Ran (Unit {0})) (f : Unit {0} → Act (Unit {0}))
      → Leaves strict s r
      → ((t : Transaction) → Repeats t (f tt t))
      → Repeats s (r >>= f)
  Repeats-bind s (gives a t) f c k = Repeats-from s t (f tt t) c (k t)
  Repeats-bind s (throws te_abort t) f c k = tt
  Repeats-bind s (throws te_restart t) f c k = c.0
  Repeats-bind s (throws te_fail t) f c k = c
  Repeats-bind s _ f c k = tt

  -- The code between Begin and End, which writes to no file itself.
  module _ (body : Act (Unit {0})) (leaves : (s : Transaction) → Leaves strict s (body s)) where
    attempt-Repeats : (s : Transaction) → Repeats s (attempt body s)
    unfolding attempt
    attempt-Repeats s =
        Repeats-bind s (construct s) _ (construct-Leaves strict s)
          (λ s₁. leave_scope-Repeats s₁ (body s₁) (leaves s₁))

    after_pass :
        (fuel : ℕ) (s s' : Transaction) (r : Ran (Unit {0}))
        → attempt body s ≡ r
        → Repeats s r
        → ((t : Transaction) → begin_end fuel body t ≡ gives tt s' → OnePass body t s')
        → elim r [
          | gives _ t ↦ gives tt t
          | throws e t ↦ elim e [
            | te_abort ↦ ends
            | te_restart ↦ begin_end fuel body t
            | te_fail ↦ gives tt t
          ]
          | waits ↦ waits
          | faults ↦ faults
          | ends ↦ ends
          | spins ↦ spins
        ]
          ≡ gives tt s'
        → OnePass body s s'
    after_pass fuel s s' (gives a t) made c again e = (s, refl, made ∙ e)
    after_pass fuel s s' (throws te_restart t) made c again e =
        let (u, same, pass) = again t e in (u, same ∙ c, pass)
    after_pass fuel s s' (throws te_abort t) made c again e = absurd (cc)
    after_pass fuel s s' (throws te_fail t) made c again e = absurd c
    after_pass fuel s s' waits made c again e = absurd (cc)
    after_pass fuel s s' faults made c again e = absurd (cc)
    after_pass fuel s s' ends made c again e = absurd (cc)
    after_pass fuel s s' spins made c again e = absurd (cc)

    -- However often the transaction is started again, nothing of the passes before the last one is
    -- left in the files: what they hold after End is what a single pass makes of the files before
    -- Begin.
    pub begin_end-OnePass :
        (fuel : ℕ) (s s' : Transaction) → begin_end fuel body s ≡ gives tt s' → OnePass body s s'
    unfolding begin_end
    begin_end-OnePass zero s s' e = absurd (cc)
    begin_end-OnePass (suc fuel) s s' e =
        after_pass fuel s s' (attempt body s) refl (attempt-Repeats s)
          (λ t. begin_end-OnePass fuel t s') e

  -- Code that always throws, or does not come to its end.
  leave_scope-quits :
      (s : Transaction) (r : Ran (Unit {0}))
      → Leaves strict s r
      → ((a : Unit {0}) (t : Transaction) → r ≢ gives a t)
      → Fails s (leave_scope r)
  unfolding leave_scope
  leave_scope-quits s (gives a t) c q = absurd (q a t refl)
  leave_scope-quits s (throws e t) c q = leave_scope-Fails s t e c
  leave_scope-quits s waits c q = tt
  leave_scope-quits s faults c q = tt
  leave_scope-quits s ends c q = tt
  leave_scope-quits s spins c q = tt

  Fails-bind :
      (s : Transaction) (r : Ran (Unit {0})) (f : Unit {0} → Act (Unit {0}))
      → Leaves strict s r
      → ((t : Transaction) → Fails t (f tt t))
      → Fails s (r >>= f)
  Fails-bind s (gives a t) f c k = Fails-from s t (f tt t) c (k t)
  Fails-bind s (throws te_abort t) f c k = λ e. (c e).0
  Fails-bind s (throws te_restart t) f c k = c.0
  Fails-bind s (throws te_fail t) f c k = c
  Fails-bind s _ f c k = tt

  pub attempt-Fails :
      (body : Act (Unit {0}))
      → ((s : Transaction) → Leaves strict s (body s))
      → ((s : Transaction) (a : Unit {0}) (t : Transaction) → body s ≢ gives a t)
      → (s : Transaction) → Fails s (attempt body s)
  unfolding attempt
  attempt-Fails body leaves quits s =
      Fails-bind s (construct s) _ (construct-Leaves strict s)
        (λ s₁. leave_scope-quits s₁ (body s₁) (leaves s₁) (quits s₁))
