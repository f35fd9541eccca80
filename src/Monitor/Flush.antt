-- ===== src/Monitor/Flush.antt =====
-- client_disconnect and flush_transaction of src/Monitor.cc: what a client that goes away leaves.
use mathlib.Core.Path.{subst}
use system_t.Monitor.Returns.{Returns}
use system_t.Base.{
  ℕ, ◌<◌, ◌≡◌, refl, ◌∙◌, ◌≢◌, ◌⊎◌, inl, inr, none, some, List, [], ◌∷◌, arith, ◌==◌, if◌then◌else◌,
  Bool-cases,
}
use system_t.Map.{
  Map, find, erase, find-erase, find-erase_cases, find-map_values, find-map_values_cases,
}
use system_t.Outcome.{returns}
use system_t.Disk.{Disk}
use system_t.Log.Manager.{LogManager, rollback}
use system_t.Monitor.Policy.Verdict.{is_committing_eq}
use system_t.Monitor.State.{committing, is_committing, Tstat, Blockholders, Monitor, committing}
use system_t.Monitor.Locks.{remove}
use system_t.Monitor.Handlers.{flush_transaction, drop_holder}
use system_t.Monitor.Server.{forget, Server, client_disconnect}
use system_t.Monitor.Invariant.{AllKnown, HolderOk, ClientsOk, Inv}
use system_t.Monitor.Policy.Evict.{Member, IsHolder}

-- A block without the transaction.
abbrev pub without : ℕ → Blockholders → Blockholders
without tid h = record {
  readers = remove tid h.readers;
  writer = if h.writer == tid then 0 else h.writer;
}

pub record IsForgotten (tid : ℕ) (m m' : Monitor) : Type 0 where
  pub unknown : find tid m'.status ≡ none
  pub holds_nothing : (b : ℕ) (h : Blockholders) → find b m'.blockmap ≡ some h → ¬ IsHolder tid h
  pub locks :
      (b : ℕ) (h : Blockholders)
      → find b m.blockmap ≡ some h
      → find b m'.blockmap ≡ some (without tid h)
  pub others : (t : ℕ) → t ≢ tid → find t m'.status ≡ find t m.status

Member-remove : (t : ℕ) (rs : List ℕ) → ¬ Member t (remove t rs)
unfolding remove
Member-remove t [] h = h
Member-remove t (r ∷ rs) h = elim (Bool-cases (r == t)) [
  | inl e ↦ Member-remove t rs (rw (e, remove) at h)
  | inr e ↦
      let h' : (r ≡ t) ⊎ Member t (remove t rs) = rw (e, remove) at h in
      elim h' [ inl p ↦ ground arith | inr p ↦ Member-remove t rs p ]
]

remove_nil : (t : ℕ) → remove t [] ≡ []
unfolding remove
remove_nil t = refl

-- Where a writer excludes readers, the two branches of the loop do one thing.
drop_holder-without :
    (tid : ℕ) (h : Blockholders)
    → ((h.writer ≡ 0) ⊎ (h.readers ≡ []))
    → 0 < tid
    → drop_holder tid h ≡ without tid h
drop_holder-without tid h exclusive pos = elim (Bool-cases (h.writer == tid)) [
  | inl e ↦
      let none_read : h.readers ≡ [] = ground arith in
      let none_left : remove tid h.readers ≡ h.readers = rw none_read (remove_nil tid) in
      rw e (ground arith)
  | inr e ↦ rw e refl
]

not_IsHolder-without : (tid : ℕ) (h : Blockholders) → 0 < tid → ¬ IsHolder tid (without tid h)
not_IsHolder-without tid h pos (inl w) = ground arith
not_IsHolder-without tid h pos (inr r) = Member-remove tid h.readers r

AllKnown-erase :
    (st : Map Tstat) (tid : ℕ) (rs : List ℕ)
    → AllKnown st rs
    → AllKnown (erase tid st) (remove tid rs)
unfolding remove
AllKnown-erase st tid [] k = tt
AllKnown-erase st tid (r ∷ rs) k = ground (arith, find-erase tid r st, AllKnown-erase st tid rs k.1)

erase-ClientsOk :
    (fd next : ℕ) (clients : Map ℕ) → ClientsOk next clients → ClientsOk next (erase fd clients)
erase-ClientsOk fd next clients c = record {
  issued = λ k t e. c.issued k t (find-erase_cases fd k t clients e).1;
  distinct = λ f g t e d.
      c.distinct f g t (find-erase_cases fd f t clients e).1 (find-erase_cases fd g t clients d).1;
}

module _ (tid : ℕ) (m : Monitor) (v : Inv m) (s : Tstat) (at : find tid m.status ≡ some s) where
  tid_pos : 0 < tid
  tid_pos = (v.ids tid (ground arith)).0

  drop_holder-HolderOk :
      (h : Blockholders) → HolderOk m.status h → HolderOk (erase tid m.status) (drop_holder tid h)
  drop_holder-HolderOk h ok = rw (drop_holder-without tid h ok.exclusive tid_pos) (record {
    writer_known = elim (Bool-cases (h.writer == tid)) [
      | inl e ↦ inl (rw e refl)
      | inr e ↦ rw e (elim ok.writer_known [
        | inl z ↦ inl z
        | inr k ↦ inr (ground (arith, find-erase tid h.writer m.status))
      ])
    ];
    readers_known = AllKnown-erase m.status tid h.readers ok.readers_known;
    exclusive = elim ok.exclusive [
      | inl z ↦ inl (ground arith)
      | inr z ↦ inr (rw z (remove_nil tid))
    ];
  })

  flush_transaction-IsForgotten : IsForgotten tid m (flush_transaction tid m)
  unfolding flush_transaction
  flush_transaction-IsForgotten =
      rw (at, flush_transaction)
        (record {
          unknown = ground (arith, find-erase tid tid m.status);
          holds_nothing = λ b h e.
              let (k, f, same) = find-map_values_cases b (drop_holder tid) h m.blockmap e in
              λ holds. not_IsHolder-without tid k tid_pos (
                subst (IsHolder tid)
                  (same ∙ drop_holder-without tid k (v.holders b k f).exclusive tid_pos) holds);
          locks = λ b h e.
              find-map_values b (drop_holder tid) m.blockmap
              ∙ rw (e, drop_holder-without tid h (v.holders b h e).exclusive tid_pos) refl;
          others = λ t n. ground (arith, find-erase tid t m.status);
        })

  flush_transaction-Inv : Inv (flush_transaction tid m)
  unfolding flush_transaction
  flush_transaction-Inv =
      rw (at, flush_transaction)
        (record {
          holders = λ b h e.
              let (k, f, same) = find-map_values_cases b (drop_holder tid) h m.blockmap e in
              rw same (drop_holder-HolderOk k (v.holders b k f));
          ids = λ t k. v.ids t (ground (arith, find-erase tid t m.status));
          sessions = v.sessions;
          started = v.started;
        })

  transactions-flush_transaction : (flush_transaction tid m).transactions ≡ m.transactions
  unfolding flush_transaction
  transactions-flush_transaction = rw (at, flush_transaction) refl

  next_tid-flush_transaction : (flush_transaction tid m).next_tid ≡ m.next_tid
  unfolding flush_transaction
  next_tid-flush_transaction = rw (at, flush_transaction) refl

  pub forget-IsForgotten : (fd : ℕ) → IsForgotten tid m (forget fd tid m)
  unfolding forget
  forget-IsForgotten fd = record {
    unknown = flush_transaction-IsForgotten.unknown;
    holds_nothing = flush_transaction-IsForgotten.holds_nothing;
    locks = flush_transaction-IsForgotten.locks;
    others = flush_transaction-IsForgotten.others;
  }

  pub forget-Inv : (fd : ℕ) → Inv (forget fd tid m)
  unfolding forget
  forget-Inv fd = record {
    holders = flush_transaction-Inv.holders;
    ids = flush_transaction-Inv.ids;
    sessions = erase-ClientsOk fd _ _ flush_transaction-Inv.sessions;
    started = flush_transaction-Inv.started;
  }

  pub next_tid-forget : (fd : ℕ) → (forget fd tid m).next_tid ≡ m.next_tid
  unfolding forget
  next_tid-forget fd = next_tid-flush_transaction

  pub find-forget :
      (fd g : ℕ)
      → find g (forget fd tid m).transactions ≡ (if fd == g then none else find g m.transactions)
  unfolding forget
  find-forget fd g = rw transactions-flush_transaction (find-erase fd g m.transactions)

module _ (fuel fd tid : ℕ) (s : Server) (q : Tstat) (v : Inv s.monitor)
    (owns : find fd s.monitor.transactions ≡ some tid)
    (at : find tid s.monitor.status ≡ some q) where
  -- What a disconnected client leaves behind: `rolled` is the logger and the disk after the
  -- rollback, where there is one.
  pub record IsGone (rolled : LogManager × Disk) (s' : Server) : Type 0 where
    pub inv : Inv s'.monitor
    pub forgotten : IsForgotten tid s.monitor s'.monitor
    pub session : find fd s'.monitor.transactions ≡ none
    pub others : (g : ℕ) → g ≢ fd → find g s'.monitor.transactions ≡ find g s.monitor.transactions
    pub logger : s'.logger ≡ rolled.0
    pub disk : s'.disk ≡ rolled.1

  gone :
      (rolled : LogManager × Disk)
      → IsGone rolled
          (record { monitor = forget fd tid s.monitor; logger = rolled.0; disk = rolled.1 })
  gone rolled = record {
    inv = forget-Inv tid s.monitor v q at fd;
    forgotten = forget-IsForgotten tid s.monitor v q at fd;
    session = ground (arith, find-forget tid s.monitor v q at fd fd);
    others = λ g n. ground (arith, find-forget tid s.monitor v q at fd g);
    logger = refl;
    disk = refl;
  }

  -- When the client of a transaction goes away, its status, its locks and its session are gone,
  -- and those of all others stay; the disk is left alone.
  pub client_disconnect-flushes :
      q.stat ≢ committing → Returns (IsGone (s.logger, s.disk)) (client_disconnect fuel fd s)
  unfolding client_disconnect
  client_disconnect-flushes n = elim (Bool-cases (is_committing q.stat)) [
    | inl c ↦ absurd (n (is_committing_eq q.stat c))
    | inr c ↦ rw (owns, client_disconnect) (rw at (rw c (gone (s.logger, s.disk))))
  ]

  -- If it goes away while it is committing and the rollback returns, the same holds, and the disk
  -- and the log are as the rollback leaves them.
  pub client_disconnect-rolls_back :
      (rolled : LogManager × Disk)
      → q.stat ≡ committing
      → rollback fuel tid s.logger s.disk ≡ returns rolled
      → Returns (IsGone rolled) (client_disconnect fuel fd s)
  unfolding client_disconnect
  client_disconnect-rolls_back rolled c r =
      rw (owns, client_disconnect) (rw at (rw c (rw r (gone rolled))))
