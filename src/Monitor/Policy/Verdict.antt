-- ===== src/Monitor/Policy/Verdict.antt =====
-- What can_read and can_write decide, and for what reason.
use mathlib.Core.Path.{subst}
use system_t.Monitor.Returns.{Returns}
use system_t.Base.{
  ℕ, ◌-◌, ◌≤◌, ◌<◌, ◌≡◌, refl, ◌≢◌, ◌⊎◌, inl, inr, Bool, true, false, some, arith, ltb, Bool-cases,
  Option-cases,
}
use system_t.Config.{timeslice}
use system_t.Map.{find}
use system_t.Monitor.State.{
  Status, committing, Tstat, Blockholders, Monitor, is_committing, out_of_time,
}
use system_t.Monitor.Locks.{contest_writer}
use system_t.Monitor.Invariant.{Inv}
use system_t.Monitor.Policy.Evict.{Member, IsWriter, IsHolder, Evicts, preempt_writer-Evicts}

abbrev pub IsLate : ℕ → Tstat → Type 0
IsLate now s = timeslice < now - s.started

-- A transaction that stands in the way of `tid` on block `b`, and why it may stay: it is a writer
-- that is committing, or a holder that is not, is not younger than `tid`, and has time left; a
-- reader is even older than `tid`.
pub record Refusal (m : Monitor) (b tid now : ℕ) : Type 0 where
  pub holders : Blockholders
  pub who : ℕ
  pub tstat : Tstat
  pub at : find b m.blockmap ≡ some holders
  pub holds : IsHolder who holders
  pub status : find who m.status ≡ some tstat
  pub reason :
      (IsWriter who holders × (tstat.stat ≡ committing))
      ⊎ ((tstat.stat ≢ committing)
          × (who ≤ tid)
          × (¬ IsLate now tstat)
          × (IsWriter who holders ⊎ (who < tid)))

-- A writer gives way if it is not committing, and is younger than `tid` or late.
abbrev pub WriterYields : ℕ → ℕ → ℕ → Tstat → Type 0
WriterYields tid now w s = (s.stat ≢ committing) × ((tid < w) ⊎ IsLate now s)

-- A reader gives way to a writer unless it is older, within its time slice and not committing.
abbrev pub ReaderYields : ℕ → ℕ → ℕ → Tstat → Type 0
ReaderYields tid now r s = (s.stat ≡ committing) ⊎ (tid ≤ r) ⊎ IsLate now s

pub is_committing_eq : (s : Status) → is_committing s ≡ true → s ≡ committing
is_committing_eq committing e = refl
is_committing_eq s e = absurd (cc)

pub is_committing_ne : (s : Status) → is_committing s ≡ false → s ≢ committing
is_committing_ne s e p = let q : is_committing s ≡ true = rw p refl in cc

module _ (m : Monitor) (b tid now : ℕ) where
  -- Read access is won from the writer, if there is one.
  pub record ReadWon (m' : Monitor) : Type 0 where
    pub evicts :
        Evicts (λ t. (h : Blockholders) × (find b m.blockmap ≡ some h) × IsWriter t h) b m m'
    pub yields :
        (h : Blockholders) (s : Tstat)
        → find b m.blockmap ≡ some h
        → h.writer ≢ 0
        → find h.writer m.status ≡ some s
        → WriterYields tid now h.writer s

  -- Write access is won from the writer, or from all the readers.
  pub record WriteWon (m' : Monitor) : Type 0 where
    pub evicts :
        Evicts (λ t. (h : Blockholders) × (find b m.blockmap ≡ some h) × IsHolder t h) b m m'
    pub yields :
        (h : Blockholders) (s : Tstat)
        → find b m.blockmap ≡ some h
        → h.writer ≢ 0
        → find h.writer m.status ≡ some s
        → WriterYields tid now h.writer s
    pub readers_yield :
        (h : Blockholders) (r : ℕ) (s : Tstat)
        → find b m.blockmap ≡ some h
        → h.writer ≡ 0
        → Member r h.readers
        → find r m.status ≡ some s
        → ReaderYields tid now r s

  -- A refusal has its reason, and changes nothing.
  abbrev pub ReadVerdict : Bool × Monitor → Type 0
  ReadVerdict (true, m') = ReadWon m'
  ReadVerdict (false, m') = (m' ≡ m) × Refusal m b tid now

  abbrev pub WriteVerdict : Bool × Monitor → Type 0
  WriteVerdict (true, m') = WriteWon m'
  WriteVerdict (false, m') = (m' ≡ m) × Refusal m b tid now

  -- The contest with one writer.
  abbrev pub Contest : Blockholders → Bool × Monitor → Type 0
  Contest h (true, m') =
      Evicts (λ t. t ≡ h.writer) b m m'
      × ((s : Tstat) → find h.writer m.status ≡ some s → WriterYields tid now h.writer s)
  Contest h (false, m') = (m' ≡ m) × Refusal m b tid now

  pub contest_writer-Contest :
      (h : Blockholders)
      → Inv m
      → find b m.blockmap ≡ some h
      → h.writer ≢ 0
      → Returns (Contest h) (contest_writer h.writer tid b now m)
  unfolding contest_writer
  contest_writer-Contest h v at held = elim (Option-cases (find h.writer m.status)) [
    | inl e ↦ absurd (ground (arith, (v.holders b h at).writer_known))
    | inr (s, e) ↦
        rw (e, contest_writer)
          (elim (Bool-cases (is_committing s.stat)) [
            | inl c ↦ rw c (refl, stays s e (inl ((omega arith, refl), is_committing_eq s.stat c)))
            | inr c ↦ rw c (elim (Bool-cases (ltb tid h.writer)) [
              | inl y ↦ rw y (preempt_writer-Evicts h.writer b m, yield s e c (inl (ground arith)))
              | inr y ↦ rw y (elim (Bool-cases (out_of_time now s)) [
                | inl o ↦
                    rw o (preempt_writer-Evicts h.writer b m, yield s e c (inr (ground arith)))
                | inr o ↦ rw o (
                  refl,
                  stays s e (
                      inr (
                        is_committing_ne s.stat c,
                        ground arith,
                        ground arith,
                        inl (omega arith, refl),
                      )),
                )
              ])
            ])
          ])
  ]
    where
      stays :
          (s : Tstat)
          → find h.writer m.status ≡ some s
          → ((IsWriter h.writer h × (s.stat ≡ committing))
              ⊎ ((s.stat ≢ committing)
                  × (h.writer ≤ tid)
                  × (¬ IsLate now s)
                  × (IsWriter h.writer h ⊎ (h.writer < tid))))
          → Refusal m b tid now
      stays s e why = record {
        holders = h;
        who = h.writer;
        tstat = s;
        at = at;
        holds = inl (omega arith, refl);
        status = e;
        reason = why;
      }

      yield :
          (s : Tstat)
          → find h.writer m.status ≡ some s
          → is_committing s.stat ≡ false
          → ((tid < h.writer) ⊎ IsLate now s)
          → (k : Tstat) → find h.writer m.status ≡ some k
          → WriterYields tid now h.writer k
      yield s e c why k f =
          let same : s ≡ k = ground arith in
          subst (WriterYields tid now h.writer) same (is_committing_ne s.stat c, why)
