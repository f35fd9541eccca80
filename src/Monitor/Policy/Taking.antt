-- ===== src/Monitor/Policy/Taking.antt =====
-- What a request for a lock leaves behind: taken, or refused.
use system_t.Monitor.Returns.{Returns, IfReturns}
use system_t.Monitor.Policy.Entries.{
  Taken, WriterAt, HolderAt, blockmap-update_status, find-update_status_ne, find-set_writer_self,
  status-set_writer, status-set_reader, find-set_reader_ne, find-set_writer_ne, update_status-noted,
}
use system_t.Monitor.Policy.Evict.{Member, Evicts}
use system_t.Monitor.Policy.Verdict.{WriteVerdict, WriterYields, ReadVerdict, Refusal, ReaderYields}
use system_t.Monitor.Policy.ReaderList.{readers_at, find-set_reader}
use system_t.Base.{
  ℕ, ◌≡◌, refl, sym, ◌∙◌, ◌≢◌, ◌⊎◌, inl, inr, Bool, true, false, some, [], ◌∷◌, if◌then◌else◌, ap,
}
use system_t.Map.{find}
use system_t.Outcome.{Outcome, returns, exits, undefined, running, ◌>>=◌}
use system_t.Trq.{Trq, ok, not_ok}
use system_t.Monitor.State.{Status, Blockholders, Monitor, Tstat}
use system_t.Monitor.Locks.{update_status, set_writer, set_reader}
use system_t.Monitor.Invariant.{is_known}
use system_t.Monitor.Grants.{is_known-update_status, GrantedPair, HasNoHolder, HasNoWriter}

module _ (m : Monitor) (b tid now : ℕ) (stat : Status) where
  -- A refusal: NOT_OK, nothing has changed, and somebody is in the way.
  abbrev pub Refused : Monitor × Trq → Type 0
  Refused (m', r) = (r.reply ≡ not_ok) × (m' ≡ m) × Refusal m b tid now

  -- Why a grant was due: the writer of the block, if any, gives way, and so do all its readers.
  abbrev pub WriterGivesWay : Type 0
  WriterGivesWay =
      (h : Blockholders) (s : Tstat)
      → find b m.blockmap ≡ some h
      → h.writer ≢ 0
      → find h.writer m.status ≡ some s
      → WriterYields tid now h.writer s

  abbrev pub ReadersGiveWay : Type 0
  ReadersGiveWay =
      (h : Blockholders) (r : ℕ) (s : Tstat)
      → find b m.blockmap ≡ some h
      → h.writer ≡ 0
      → Member r h.readers
      → find r m.status ≡ some s
      → ReaderYields tid now r s

  -- A write lock: OK, `tid` is the only holder of the block, and all the holders before are losers.
  abbrev pub WriteTaken : Monitor × Trq → Type 0
  WriteTaken (m', r) =
      (r.reply ≡ ok)
      × (find b m'.blockmap ≡ some (record { readers = []; writer = tid }))
      × Taken (HolderAt m b) b tid stat m m'
      × WriterGivesWay
      × ReadersGiveWay

  -- A read lock: OK, `tid` reads the block beside all who did before and no others, there is no
  -- writer, and one before is the loser.
  abbrev pub ReadTaken : Monitor × Trq → Type 0
  ReadTaken (m', r) =
      (r.reply ≡ ok)
      × (find b m'.blockmap ≡ some (record { readers = tid ∷ readers_at b m; writer = 0 }))
      × Taken (WriterAt m b) b tid stat m m'
      × WriterGivesWay

  pub take_write-Taken :
      (L : ℕ → Type 0) (m' : Monitor)
      → Evicts L b m m'
      → ((t : ℕ) → is_known t m'.status ≡ is_known t m.status)
      → ((t : ℕ) → t ≢ tid → HolderAt m b t → L t)
      → ((t : ℕ) → L t → HolderAt m b t)
      → Taken (HolderAt m b) b tid stat m (update_status tid b stat (set_writer b tid m'))
  take_write-Taken L m' e same to from = record {
    doomed = λ t n l s p. e.doomed t (to t n l) s (
        sym (
          find-update_status_ne b tid stat (set_writer b tid m') t n
          ∙ ap (find t) (status-set_writer b tid m'))
        ∙ p);
    spared = λ t n l.
        find-update_status_ne b tid stat (set_writer b tid m') t n
        ∙ ap (find t) (status-set_writer b tid m')
        ∙ e.spared t (λ k. l (from t k));
    elsewhere = λ c n.
        ap (find c) (blockmap-update_status b tid stat (set_writer b tid m'))
        ∙ find-set_writer_ne b tid m' c n
        ∙ e.elsewhere c n;
    known = λ t.
        is_known-update_status t tid b stat (set_writer b tid m')
        ∙ ap (is_known t) (status-set_writer b tid m')
        ∙ same t;
    noted = update_status-noted b tid stat (set_writer b tid m');
  }

  take_read-Taken :
      (m' : Monitor)
      → Evicts (WriterAt m b) b m m'
      → ((t : ℕ) → is_known t m'.status ≡ is_known t m.status)
      → Taken (WriterAt m b) b tid stat m (update_status tid b stat (set_reader b tid m'))
  take_read-Taken m' e same = record {
    doomed = λ t n l s p. e.doomed t l s (
        sym (
          find-update_status_ne b tid stat (set_reader b tid m') t n
          ∙ ap (find t) (status-set_reader b tid m'))
        ∙ p);
    spared = λ t n l.
        find-update_status_ne b tid stat (set_reader b tid m') t n
        ∙ ap (find t) (status-set_reader b tid m')
        ∙ e.spared t l;
    elsewhere = λ c n.
        ap (find c) (blockmap-update_status b tid stat (set_reader b tid m'))
        ∙ find-set_reader_ne b tid m' c n
        ∙ e.elsewhere c n;
    known = λ t.
        is_known-update_status t tid b stat (set_reader b tid m')
        ∙ ap (is_known t) (status-set_reader b tid m')
        ∙ same t;
    noted = update_status-noted b tid stat (set_reader b tid m');
  }

  -- The shape of a handler that asks for a write lock.
  pub write_lock-cases :
      (o : Outcome (Bool × Monitor)) (yes_rq no_rq : Trq)
      → yes_rq.reply ≡ ok
      → no_rq.reply ≡ not_ok
      → Returns (WriteVerdict m b tid now) o
      → Returns (GrantedPair HasNoHolder m b) o
      → Returns
          (λ r. WriteTaken r ⊎ Refused r)
          (o >>= λ (g, m').
            if g
            then returns (update_status tid b stat (set_writer b tid m'), yes_rq)
            else returns (m', no_rq))
  write_lock-cases (returns (true, m')) yes_rq no_rq y n w g = inl (
    y,
    ap (find b) (blockmap-update_status b tid stat (set_writer b tid m'))
        ∙ find-set_writer_self b tid m' (λ h e. (g.free refl h e).1),
    take_write-Taken (HolderAt m b) m' w.evicts g.same (λ t _ l. l) (λ t l. l),
    w.yields,
    w.readers_yield,
  )
  write_lock-cases (returns (false, m')) yes_rq no_rq y n w g = inr (n, w.0, w.1)
  write_lock-cases exits yes_rq no_rq y n w g = absurd w
  write_lock-cases undefined yes_rq no_rq y n w g = absurd w
  write_lock-cases running yes_rq no_rq y n w g = absurd w

  pub read_lock-cases :
      (o : Outcome (Bool × Monitor)) (yes_rq no_rq : Trq)
      → yes_rq.reply ≡ ok
      → no_rq.reply ≡ not_ok
      → Returns (ReadVerdict m b tid now) o
      → Returns (GrantedPair HasNoWriter m b) o
      → IfReturns (λ p. readers_at b p.1 ≡ readers_at b m) o
      → Returns
          (λ r. ReadTaken r ⊎ Refused r)
          (o >>= λ (g, m').
            if g
            then returns (update_status tid b stat (set_reader b tid m'), yes_rq)
            else returns (m', no_rq))
  read_lock-cases (returns (true, m')) yes_rq no_rq y n w g k = inl (
    y,
    ap (find b) (blockmap-update_status b tid stat (set_reader b tid m'))
        ∙ find-set_reader b tid m' (g.free refl)
        ∙ ap (λ rs. some (record { readers = tid ∷ rs; writer = 0 })) k,
    take_read-Taken m' w.evicts g.same,
    w.yields,
  )
  read_lock-cases (returns (false, m')) yes_rq no_rq y n w g k = inr (n, w.0, w.1)
  read_lock-cases exits yes_rq no_rq y n w g k = absurd w
  read_lock-cases undefined yes_rq no_rq y n w g k = absurd w
  read_lock-cases running yes_rq no_rq y n w g k = absurd w
