-- ===== src/Monitor/Policy/Decide.antt =====
-- The verdicts of can_read and can_write of src/Monitor.cc.
use system_t.Monitor.Returns.{Returns, Returns-bind, Returns-map}
use system_t.Monitor.Policy.Readers.{BlockerVerdict, has_blocker-Verdict}
use mathlib.Core.Path.{subst}
use system_t.Base.{
  ℕ, ◌≡◌, refl, sym, ◌≢◌, inl, inr, Bool, true, false, some, List, [], ◌∷◌, arith, ◌==◌, Bool-cases,
  Option-cases, Option,
}
use system_t.Map.{find, modify}
use system_t.Outcome.{returns}
use system_t.Monitor.State.{Blockholders, Monitor}
use system_t.Monitor.Locks.{
  can_read, has_blocker, preempt_readers, without_readers, contest_readers, can_write,
}
use system_t.Monitor.Invariant.{Inv}
use system_t.Monitor.Grants.{blockmap-preempt_readers}
use system_t.Monitor.Policy.Evict.{
  Member, preempt_readers-IsDoomed, find-preempt_readers_ne, find-modify_ne, Evicts-weaken,
}
use system_t.Monitor.Policy.Verdict.{
  Refusal, WriterYields, ReadWon, WriteWon, ReadVerdict, WriteVerdict, Contest,
  contest_writer-Contest,
}

module _ (m : Monitor) (b tid now : ℕ) (v : Inv m) where
  -- A block with no writer is read at nobody's cost.
  read_free :
      ((h : Blockholders) → find b m.blockmap ≡ some h → h.writer ≡ 0) → ReadWon m b tid now m
  read_free free = record {
    evicts = record {
      doomed = λ t l. let (h, at, holds) = l in absurd (let z = free h at in omega arith);
      spared = λ t n. refl;
      elsewhere = λ c n. refl;
    };
    yields = λ h s at held _. absurd (held (free h at));
  }

  Contest-read :
      (h : Blockholders)
      → find b m.blockmap ≡ some h
      → h.writer ≢ 0
      → (p : Bool × Monitor) → Contest m b tid now h p
      → ReadVerdict m b tid now p
  Contest-read h at held (true, m') (evicts, yields) = record {
    evicts =
        Evicts-weaken evicts
          (λ t l. let (k, f, w) = l in let same : h ≡ k = ground arith in rw same (sym w.1))
          (λ t l. (h, at, (rw l (omega arith), sym l)));
    yields = λ k s f _ e.
        let same : h ≡ k = ground arith in
        subst (λ k. WriterYields tid now k.writer s) same (yields s (rw same e));
  }
  Contest-read h at held (false, m') refusal = refusal

  -- The verdict of can_read.
  pub can_read-Verdict : Returns (ReadVerdict m b tid now) (can_read tid b now m)
  unfolding can_read
  can_read-Verdict = elim (Option-cases (find b m.blockmap)) [
    | inl e ↦ rw (e, can_read) (read_free (λ h f. absurd (cc)))
    | inr (h, e) ↦
        rw (e, can_read)
          (elim (Bool-cases (h.writer == 0)) [
            | inl z ↦
                rw z
                  (read_free (λ k f. let same : h ≡ k = ground arith in rw (← same) (ground arith)))
            | inr z ↦ rw z (
                Returns-map (Contest m b tid now h) (ReadVerdict m b tid now) _
                  (Contest-read h e (ground arith))
                  (contest_writer-Contest m b tid now h v e (ground arith)))
          ])
  ]

-- Two holders that are found at one block are one.
pub same_holder : {o : Option Blockholders} {h k : Blockholders} → o ≡ some h → o ≡ some k → h ≡ k
same_holder p q = cc

Member-nil : (t : ℕ) (rs : List ℕ) → rs ≡ [] → ¬ Member t rs
Member-nil t [] e h = h
Member-nil t (r ∷ rs) e h = cc

module _ (m : Monitor) (b tid now : ℕ) (v : Inv m) where
  -- A block with no holder is written at nobody's cost.
  write_free :
      ((h : Blockholders) → find b m.blockmap ≡ some h → (h.writer ≡ 0) × (h.readers ≡ []))
      → WriteWon m b tid now m
  write_free free = record {
    evicts = record {
      doomed = λ t l.
          let (h, at, holds) = l in
          elim holds [
            | inl w ↦ absurd (let z = (free h at).0 in omega arith)
            | inr r ↦ absurd (Member-nil t h.readers (free h at).1 r)
          ];
      spared = λ t n. refl;
      elsewhere = λ c n. refl;
    };
    yields = λ h s at held _. absurd (held (free h at).0);
    readers_yield = λ h r s at _ r_in _. absurd (Member-nil r h.readers (free h at).1 r_in);
  }

  Contest-write :
      (h : Blockholders)
      → find b m.blockmap ≡ some h
      → h.writer ≢ 0
      → (p : Bool × Monitor) → Contest m b tid now h p
      → WriteVerdict m b tid now p
  Contest-write h at held (true, m') (evicts, yields) = record {
    evicts =
        Evicts-weaken evicts
          (λ t l.
            let (k, f, holds) = l in
            let same : h ≡ k = same_holder at f in
            elim holds [
              | inl w ↦ rw same (sym w.1)
              | inr r ↦ absurd (Member-nil t h.readers no_readers (rw same r))
            ])
          (λ t l. (h, at, inl (rw l (omega arith), sym l)));
    yields = λ k s f _ e.
        let same : h ≡ k = same_holder at f in
        subst (λ k. WriterYields tid now k.writer s) same (yields s (rw same e));
    readers_yield =
        λ k r s f z _ _. let same : h ≡ k = same_holder at f in absurd (held (rw same z));
  }
    where
      no_readers : h.readers ≡ []
      no_readers = ground (arith, (v.holders b h at).exclusive)
  Contest-write h at held (false, m') refusal = refusal

  evict_readers :
      (h : Blockholders)
      → find b m.blockmap ≡ some h
      → h.writer ≡ 0
      → BlockerVerdict tid now m.status h.readers false
      → WriteWon m b tid now (record (preempt_readers h.readers m) {
        blockmap = modify b without_readers (preempt_readers h.readers m).blockmap;
      })
  evict_readers h at z all = record {
    evicts = record {
      doomed = λ t l.
          let (k, f, holds) = l in
          let same : h ≡ k = same_holder at f in
          elim holds [
            | inl w ↦ absurd (let none_writes : k.writer ≡ 0 = rw (← same) z in omega arith)
            | inr r ↦ preempt_readers-IsDoomed t h.readers m (rw same r)
          ];
      spared = λ t n. find-preempt_readers_ne t h.readers m (λ r. n (h, at, inr r));
      elsewhere = λ c n.
          rw (blockmap-preempt_readers h.readers m)
            (find-modify_ne b c without_readers m.blockmap (λ e. n (sym e)));
    };
    yields = λ k s f held _. let same : h ≡ k = same_holder at f in absurd (held (rw (← same) z));
    readers_yield =
        λ k r s f _ r_in e. let same : h ≡ k = same_holder at f in all r s (rw same r_in) e;
  }

  contest_readers-Verdict :
      (h : Blockholders)
      → find b m.blockmap ≡ some h
      → h.writer ≡ 0
      → Returns (WriteVerdict m b tid now) (contest_readers h.readers tid b now m)
  unfolding contest_readers
  contest_readers-Verdict h at z =
      Returns-bind (BlockerVerdict tid now m.status h.readers) (WriteVerdict m b tid now)
        (has_blocker tid now m.status h.readers) _
        (has_blocker-Verdict tid now m.status h.readers (v.holders b h at).readers_known)
        (elim [ true ↦ λ blocker. (refl, stays blocker) | false ↦ λ all. evict_readers h at z all ])
    where
      stays : BlockerVerdict tid now m.status h.readers true → Refusal m b tid now
      stays (r, s, r_in, e, free, old, soon) = record {
        holders = h;
        who = r;
        tstat = s;
        at = at;
        holds = inr r_in;
        status = e;
        reason = inr (free, omega arith, soon, inr old);
      }

  -- The verdict of can_write.
  pub can_write-Verdict : Returns (WriteVerdict m b tid now) (can_write tid b now m)
  unfolding can_write
  can_write-Verdict = elim (Option-cases (find b m.blockmap)) [
    | inl e ↦ rw (e, can_write) (write_free (λ h f. absurd (cc)))
    | inr (h, e) ↦
        rw (e, can_write)
          (elim (Bool-cases (h.writer == 0)) [
            | inl z ↦ rw z (readers_case h h.readers e refl (ground arith))
            | inr z ↦ rw z (
                Returns-map (Contest m b tid now h) (WriteVerdict m b tid now) _
                  (Contest-write h e (ground arith))
                  (contest_writer-Contest m b tid now h v e (ground arith)))
          ])
  ]
    where
      readers_case :
          (h : Blockholders) (rs : List ℕ)
          → find b m.blockmap ≡ some h
          → h.readers ≡ rs
          → h.writer ≡ 0
          → Returns (WriteVerdict m b tid now) (elim rs [
            | [] ↦ returns (true, m)
            | r ∷ rest ↦ contest_readers (r ∷ rest) tid b now m
          ])
      readers_case h [] e p z =
          write_free (λ k f. let same : h ≡ k = same_holder e f in (rw (← same) z, rw (← same) p))
      readers_case h (r ∷ rest) e p z =
          subst (λ rs. Returns (WriteVerdict m b tid now) (contest_readers rs tid b now m)) p
            (contest_readers-Verdict h e z)
