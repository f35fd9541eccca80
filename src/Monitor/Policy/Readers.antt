-- ===== src/Monitor/Policy/Readers.antt =====
-- The search for a reader that a writer has to respect.
use mathlib.Core.Path.{subst}
use system_t.Monitor.Returns.{Returns, Returns-map}
use system_t.Base.{
  ℕ, ◌<◌, ◌≡◌, refl, ◌≢◌, inl, inr, Bool, true, false, not, ◌&&◌, some, List, [], ◌∷◌, arith, ltb,
  Bool-cases, Option-cases,
}
use system_t.Map.{Map, find}
use system_t.Monitor.State.{committing, Tstat, is_committing, out_of_time}
use system_t.Monitor.Locks.{has_blocker}
use system_t.Monitor.Invariant.{AllKnown}
use system_t.Monitor.Policy.Evict.{Member}
use system_t.Monitor.Policy.Verdict.{IsLate, ReaderYields, is_committing_eq, is_committing_ne}

-- The loop over the readers finds one that may stay, or all of them give way.
abbrev pub BlockerVerdict : ℕ → ℕ → Map Tstat → List ℕ → Bool → Type 0
BlockerVerdict tid now st rs true =
    (r : ℕ) × (s : Tstat) × Member r rs
    × (find r st ≡ some s)
    × (s.stat ≢ committing)
    × (r < tid)
    × (¬ IsLate now s)
BlockerVerdict tid now st rs false =
    (r : ℕ) (s : Tstat) → Member r rs → find r st ≡ some s → ReaderYields tid now r s

abbrev blocks : ℕ → ℕ → ℕ → Tstat → Bool
blocks tid now r s = not (is_committing s.stat) && (ltb r tid && not (out_of_time now s))

blocks-true :
    (tid now r : ℕ) (s : Tstat)
    → blocks tid now r s ≡ true
    → (s.stat ≢ committing) × (r < tid) × (¬ IsLate now s)
blocks-true tid now r s e = (is_committing_ne s.stat (ground arith), ground arith, ground arith)

blocks-false : (tid now r : ℕ) (s : Tstat) → blocks tid now r s ≡ false → ReaderYields tid now r s
blocks-false tid now r s e = elim (Bool-cases (is_committing s.stat)) [
  | inl c ↦ inl (is_committing_eq s.stat c)
  | inr c ↦ elim (Bool-cases (ltb r tid)) [
    | inl y ↦ inr (inr (ground arith))
    | inr y ↦ inr (inl (ground arith))
  ]
]

BlockerVerdict-cons :
    (tid now r : ℕ) (s : Tstat) (st : Map Tstat) (rs : List ℕ) (found : Bool)
    → find r st ≡ some s
    → blocks tid now r s ≡ false
    → BlockerVerdict tid now st rs found
    → BlockerVerdict tid now st (r ∷ rs) found
BlockerVerdict-cons tid now r s st rs true e n (q, t, q_in, at, free, old, soon) =
    (q, t, inr q_in, at, free, old, soon)
BlockerVerdict-cons tid now r s st rs false e n all = λ q t. elim [
  | inl same ↦ λ at.
      let t_is : s ≡ t = ground arith in
      subst (λ q. ReaderYields tid now q t) same
        (subst (ReaderYields tid now r) t_is (blocks-false tid now r s n))
  | inr q_in ↦ λ at. all q t q_in at
]

pub has_blocker-Verdict :
    (tid now : ℕ) (st : Map Tstat) (rs : List ℕ)
    → AllKnown st rs
    → Returns (BlockerVerdict tid now st rs) (has_blocker tid now st rs)
unfolding has_blocker
has_blocker-Verdict tid now st [] k = λ q t q_in at. absurd q_in
has_blocker-Verdict tid now st (r ∷ rs) k = elim (Option-cases (find r st)) [
  | inl e ↦ absurd (ground (arith, k.0))
  | inr (s, e) ↦
      rw (e, has_blocker)
        (elim (Bool-cases (blocks tid now r s)) [
          | inl b ↦
              let why = blocks-true tid now r s b in rw b (r, s, inl refl, e, why.0, why.1, why.2)
          | inr b ↦ rw b (
              Returns-map (BlockerVerdict tid now st rs) (BlockerVerdict tid now st (r ∷ rs))
                (has_blocker tid now st rs)
                (λ found. BlockerVerdict-cons tid now r s st rs found e b)
                (has_blocker-Verdict tid now st rs k.1))
        ])
]
