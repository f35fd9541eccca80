-- ===== src/Monitor/Shield.antt =====
-- A transaction that is committing in src/Monitor.cc, holds no block as a reader, and meets requests
-- of others.
use mathlib.Core.Path.{subst}
use system_t.Base.{
  ℕ, ◌<◌, ◌≡◌, refl, sym, ◌∙◌, ◌≢◌, ◌⊎◌, inl, inr, false, some, [], arith, ◌==◌, Bool-cases,
  Option-cases,
}
use system_t.Map.{find, modify, find-insert, find-modify}
use system_t.Trq.{Trq}
use system_t.Monitor.State.{
  Status, committing, ended, with_stat, Tstat, Blockholders, Monitor, is_committing,
}
use system_t.Monitor.Handlers.{begin_rq, note_status, end_rq}
use system_t.Monitor.Invariant.{Inv}
use system_t.Monitor.Policy.Evict.{Member}
use system_t.Monitor.Policy.Entries.{WriterAt}
use system_t.Monitor.Policy.Taking.{WriteTaken, ReadTaken, Refused}
use system_t.Monitor.Readers.{ReadsNone}

-- It writes the block.
abbrev pub Writes : ℕ → ℕ → Monitor → Type 0
Writes c b m = (h : Blockholders) × (find b m.blockmap ≡ some h) × (h.writer ≡ c)

-- It is committing, reads no block, and writes those of its own.
pub record IsShielded (c : ℕ) (own : ℕ → Type 0) (m : Monitor) : Type 0 where
  pub tstat : Tstat
  pub status : find c m.status ≡ some tstat
  pub commits : tstat.stat ≡ committing
  pub no_read : ReadsNone c m.blockmap
  pub writes : (b : ℕ) → own b → Writes c b m

module _ (c : ℕ) (own : ℕ → Type 0) where
  -- The same status and the same locks.
  pub as_before :
      (m m' : Monitor)
      → find c m'.status ≡ find c m.status
      → m'.blockmap ≡ m.blockmap
      → IsShielded c own m
      → IsShielded c own m'
  as_before m m' s b k = record {
    tstat = k.tstat;
    status = s ∙ k.status;
    commits = k.commits;
    no_read = rw b k.no_read;
    writes = rw b k.writes;
  }

  -- A lock that another one was granted on the block `b`.
  module _ (m : Monitor) (v : Inv m) (k : IsShielded c own m) (positive : 0 < c) (b tid now : ℕ)
      (other : c ≢ tid) (stat : Status) where
    -- The block is none of its own.
    not_writer :
        ((h : Blockholders) (s : Tstat)
          → find b m.blockmap ≡ some h
          → h.writer ≢ 0
          → find h.writer m.status ≡ some s
          → s.stat ≢ committing)
        → ¬ WriterAt m b c
    not_writer yields (h, at, w) =
        yields h k.tstat at (let p = w.0 in let e = w.1 in λ z. omega arith) (rw w.1 k.status)
          k.commits

    elsewhere_kept :
        (m' : Monitor)
        → ¬ WriterAt m b c
        → ((a : ℕ) → a ≢ b → find a m'.blockmap ≡ find a m.blockmap)
        → (a : ℕ) → own a
        → Writes c a m'
    elsewhere_kept m' n same a mine =
        let (h, at, w) = k.writes a mine in
        (
          h,
          same a (λ e. n (h, subst (λ x. find x m.blockmap ≡ some h) e at, (positive, w))) ∙ at,
          w,
        )

    only_one :
        (m' : Monitor) (h : Blockholders)
        → find b m'.blockmap ≡ some (record { readers = []; writer = tid })
        → find b m'.blockmap ≡ some h
        → h ≡ record { readers = []; writer = tid }
    only_one m' h p q = let e = sym q ∙ p in cc

    pub written-IsShielded :
        (r : Monitor × Trq)
        → (WriteTaken m b tid now stat r ⊎ Refused m b tid now stat r)
        → IsShielded c own r.0
    written-IsShielded r (inr refused) = subst (IsShielded c own) (sym refused.1) k
    written-IsShielded r (inl w) =
        let n = not_writer (λ h s at z e. (w.3 h s at z e).0) in
        record {
          tstat = k.tstat;
          status =
              w.2.spared c other (λ (h, at, holds). elim holds [
                | inl writes ↦ n (h, at, writes)
                | inr reads ↦ k.no_read b h at reads
              ])
              ∙ k.status;
          commits = k.commits;
          no_read = λ a h at reads. elim (Bool-cases (a == b)) [
            | inl q ↦
                let same : a ≡ b = ground arith in
                let at' : find b r.0.blockmap ≡ some h =
                  subst (λ x. find x r.0.blockmap ≡ some h) same at in
                let sole : h ≡ record { readers = []; writer = tid } = only_one r.0 h w.1 at' in
                subst (λ h. Member c h.readers) sole reads
            | inr q ↦ k.no_read a h (sym (w.2.elsewhere a (ground arith)) ∙ at) reads
          ];
          writes = elsewhere_kept r.0 n w.2.elsewhere;
        }

    pub read-IsShielded :
        (r : Monitor × Trq)
        → ReadsNone c r.0.blockmap
        → (ReadTaken m b tid now stat r ⊎ Refused m b tid now stat r)
        → IsShielded c own r.0
    read-IsShielded r absent (inr refused) = subst (IsShielded c own) (sym refused.1) k
    read-IsShielded r absent (inl w) =
        let n = not_writer (λ h s at z e. (w.3 h s at z e).0) in
        record {
          tstat = k.tstat;
          status = w.2.spared c other n ∙ k.status;
          commits = k.commits;
          no_read = absent;
          writes = elsewhere_kept r.0 n w.2.elsewhere;
        }

  -- Another transaction's status is changed.
  modify-IsShielded :
      (m : Monitor) (j : ℕ) (f : Tstat → Tstat)
      → j ≢ c
      → IsShielded c own m
      → IsShielded c own (record m { status = modify j f m.status })
  modify-IsShielded m j f n k = as_before m _ (ground (arith, find-modify j c f m.status)) refl k

  pub note_status-IsShielded :
      (s : Status) (t : Trq) (m : Monitor)
      → c ≢ t.tid
      → IsShielded c own m
      → IsShielded c own (note_status s t m).0
  unfolding note_status
  note_status-IsShielded s t m n k = elim (Option-cases (find t.tid m.status)) [
    | inl e ↦ rw (e, note_status) k
    | inr (p, e) ↦ rw (e, note_status) (modify-IsShielded m t.tid (with_stat s) (λ q. n (sym q)) k)
  ]

  pub end_rq-IsShielded :
      (t : Trq) (m : Monitor) → c ≢ t.tid → IsShielded c own m → IsShielded c own (end_rq t m).0
  unfolding end_rq
  end_rq-IsShielded t m n k = elim (Option-cases (find t.tid m.status)) [
    | inl e ↦ rw (e, end_rq) k
    | inr (p, e) ↦
        rw (e, end_rq)
          (elim (Bool-cases (is_committing p.stat)) [
            | inl z ↦ rw z (modify-IsShielded m t.tid (with_stat ended) (λ q. n (sym q)) k)
            | inr z ↦ rw z k
          ])
  ]

  pub begin_rq-IsShielded :
      (t : Trq) (who now : ℕ) (m : Monitor)
      → c < m.next_tid
      → IsShielded c own m
      → IsShielded c own (begin_rq t who now m).0
  unfolding begin_rq
  begin_rq-IsShielded t who now m old k =
      let apart : (m.next_tid == c) ≡ false = let o = old in ground arith in
      as_before m _ (find-insert m.next_tid c _ m.status ∙ rw apart refl) refl k
