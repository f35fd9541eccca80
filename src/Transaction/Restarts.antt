-- ===== src/Transaction/Restarts.antt =====
-- The macros Begin and End of src/Transaction.hh: how often they start again.
use system_t.Transaction.CountEnding.{construct-Counts, destroy-Counts}
use system_t.Transaction.Ending.{construct, destroy, leave_scope, attempt, begin_end}
use system_t.Transaction.Retry.{Counts, Counts-bind, Counts-from}
use system_t.Base.{ℕ, zero, suc, ◌+◌, ◌≤◌, ◌<◌, ◌∙◌, ◌≢◌, arith}
use system_t.Transaction.State.{
  TransactionException, te_abort, te_restart, te_fail, Transaction, Ran, gives, throws, waits,
  faults, ends, spins, Act,
}

thrown-Counts :
    (s s' : Transaction) (e : TransactionException) (r : Ran (Unit {0}))
    → Counts {A = Unit {0}} s (throws e s')
    → Counts s' r
    → Counts {A = Unit {0}} s (elim r [
      | gives _ t ↦ throws e t
      | throws _ _ ↦ ends
      | waits ↦ waits
      | faults ↦ faults
      | ends ↦ ends
      | spins ↦ spins
    ])
thrown-Counts s s' te_abort (gives a t) c k = tt
thrown-Counts s s' te_restart (gives a t) c k = (k ∙ c.0, c.1)
thrown-Counts s s' te_fail (gives a t) c k = c
thrown-Counts s s' e (throws f t) c k = tt
thrown-Counts s s' e waits c k = tt
thrown-Counts s s' e faults c k = tt
thrown-Counts s s' e ends c k = tt
thrown-Counts s s' e spins c k = k

leave_scope-Counts : (s : Transaction) (r : Ran (Unit {0})) → Counts s r → Counts s (leave_scope r)
unfolding leave_scope
leave_scope-Counts s (gives a t) c = Counts-from s t (destroy t) c (destroy-Counts t)
leave_scope-Counts s (throws e t) c = thrown-Counts s t e (destroy t) c (destroy-Counts t)
leave_scope-Counts s waits c = tt
leave_scope-Counts s faults c = tt
leave_scope-Counts s ends c = tt
leave_scope-Counts s spins c = c

-- The code between Begin and End.
module _ (body : Act (Unit {0})) (counts : (s : Transaction) → Counts s (body s)) where
  attempt-Counts : (s : Transaction) → Counts s (attempt body s)
  unfolding attempt
  attempt-Counts s =
      Counts-bind s (construct s) _ (construct-Counts s)
        (λ _ s₁. leave_scope-Counts s₁ (body s₁) (counts s₁))

  -- What End makes of an attempt.
  after_attempt :
      (fuel : ℕ) (s : Transaction) (r : Ran (Unit {0}))
      → Counts s r
      → ((t : Transaction)
          → s.last_sleep < t.last_sleep
          → t.last_sleep ≤ 6
          → begin_end fuel body t ≢ spins)
      → elim r [
        | gives _ s' ↦ gives tt s'
        | throws e s' ↦ elim e [
          | te_abort ↦ ends
          | te_restart ↦ begin_end fuel body s'
          | te_fail ↦ gives tt s'
        ]
        | waits ↦ waits
        | faults ↦ faults
        | ends ↦ ends
        | spins ↦ spins
      ]
        ≢ spins
  after_attempt fuel s (gives a t) c again e = cc
  after_attempt fuel s (throws te_abort t) c again e = cc
  after_attempt fuel s (throws te_restart t) c again e =
      again t (omega (arith, c.0)) (omega (arith, c.0, c.1)) e
  after_attempt fuel s (throws te_fail t) c again e = c
  after_attempt fuel s waits c again e = cc
  after_attempt fuel s faults c again e = cc
  after_attempt fuel s ends c again e = cc
  after_attempt fuel s spins c again e = c

  -- Where the code between Begin and End only counts its restarts, as the calls to read, write and
  -- release do, and last_sleep is at most 6, the `goto` is taken finitely often: seven passes are
  -- enough from a last_sleep of 0, and in general one more than what last_sleep leaves up to 6.
  pub begin_end-stops :
      (fuel : ℕ) (s : Transaction)
      → s.last_sleep ≤ 6
      → 6 < fuel + s.last_sleep
      → begin_end fuel body s ≢ spins
  unfolding begin_end
  begin_end-stops zero s low enough e = omega arith
  begin_end-stops (suc fuel) s low enough e =
      after_attempt fuel s (attempt body s) (attempt-Counts s)
        (λ t more most. begin_end-stops fuel t most (omega arith)) e
