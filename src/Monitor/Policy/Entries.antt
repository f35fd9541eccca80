-- ===== src/Monitor/Policy/Entries.antt =====
-- The entries that a granted request makes: in the lock table, and in its own status.
use system_t.Base.{ℕ, ◌≡◌, refl, ◌≢◌, inl, inr, some, [], ◌∷◌, arith, Option-cases}
use system_t.Map.{find, find-insert, find-modify}
use system_t.Monitor.State.{Status, Tstat, Blockholders, Monitor, with_writer}
use system_t.Monitor.Locks.{update_status, set_writer, set_reader}
use system_t.Monitor.Invariant.{is_known}
use system_t.Monitor.Policy.Evict.{IsWriter, IsHolder, IsDoomed}

abbrev pub HolderAt : Monitor → ℕ → ℕ → Type 0
HolderAt m b t = (h : Blockholders) × (find b m.blockmap ≡ some h) × IsHolder t h

abbrev pub WriterAt : Monitor → ℕ → ℕ → Type 0
WriterAt m b t = (h : Blockholders) × (find b m.blockmap ≡ some h) × IsWriter t h

-- From `m` to `m'` the transaction `tid` takes block `b`, and notes it as its status: losers are
-- doomed, everybody else and every other block is left alone.
pub record Taken (Loser : ℕ → Type 0) (b tid : ℕ) (stat : Status) (m m' : Monitor) : Type 0 where
  pub doomed : (t : ℕ) → t ≢ tid → Loser t → IsDoomed t m'
  pub spared : (t : ℕ) → t ≢ tid → ¬ Loser t → find t m'.status ≡ find t m.status
  pub elsewhere : (c : ℕ) → c ≢ b → find c m'.blockmap ≡ find c m.blockmap
  pub known : (t : ℕ) → is_known t m'.status ≡ is_known t m.status
  pub noted : (s : Tstat) → find tid m'.status ≡ some s → (s.stat ≡ stat) × (s.block_no ≡ b)

module _ (b tid : ℕ) (m : Monitor) where
  pub status-set_writer : (set_writer b tid m).status ≡ m.status
  unfolding set_writer
  status-set_writer = elim (Option-cases (find b m.blockmap)) [
    | inl e ↦ rw (e, set_writer) refl
    | inr (h, e) ↦ rw (e, set_writer) refl
  ]

  pub find-set_writer_ne :
      (c : ℕ) → c ≢ b → find c (set_writer b tid m).blockmap ≡ find c m.blockmap
  unfolding set_writer
  find-set_writer_ne c n = elim (Option-cases (find b m.blockmap)) [
    | inl e ↦
        rw (e, set_writer)
          (ground (arith, find-insert b c (record { readers = []; writer = tid }) m.blockmap))
    | inr (h, e) ↦ rw (e, set_writer) (ground (arith, find-modify b c (with_writer tid) m.blockmap))
  ]

  pub find-set_writer_self :
      ((h : Blockholders) → find b m.blockmap ≡ some h → h.readers ≡ [])
      → find b (set_writer b tid m).blockmap ≡ some (record { readers = []; writer = tid })
  unfolding set_writer
  find-set_writer_self free = elim (Option-cases (find b m.blockmap)) [
    | inl e ↦
        rw (e, set_writer)
          (ground (arith, find-insert b b (record { readers = []; writer = tid }) m.blockmap))
    | inr (h, e) ↦
        rw (e, set_writer) (ground (arith, find-modify b b (with_writer tid) m.blockmap, free h e))
  ]

  pub status-set_reader : (set_reader b tid m).status ≡ m.status
  unfolding set_reader
  status-set_reader = elim (Option-cases (find b m.blockmap)) [
    | inl e ↦ rw (e, set_reader) refl
    | inr (h, e) ↦ rw (e, set_reader) refl
  ]

  pub find-set_reader_ne :
      (c : ℕ) → c ≢ b → find c (set_reader b tid m).blockmap ≡ find c m.blockmap
  unfolding set_reader
  find-set_reader_ne c n = elim (Option-cases (find b m.blockmap)) [
    | inl e ↦
        rw (e, set_reader)
          (ground (arith, find-insert b c (record { readers = tid ∷ []; writer = 0 }) m.blockmap))
    | inr (h, e) ↦
        rw (e, set_reader)
          (ground (arith, find-modify b c (λ p. record p { readers = tid ∷ p.readers }) m.blockmap))
  ]

module _ (b tid : ℕ) (s : Status) (m : Monitor) where
  pub blockmap-update_status : (update_status tid b s m).blockmap ≡ m.blockmap
  unfolding update_status
  blockmap-update_status = refl

  pub update_status-noted :
      (t : Tstat)
      → find tid (update_status tid b s m).status ≡ some t
      → (t.stat ≡ s) × (t.block_no ≡ b)
  unfolding update_status
  update_status-noted t e = elim (Option-cases (find tid m.status)) [
    | inl p ↦
        absurd
          (ground (arith, find-modify tid tid (λ p. record p { block_no = b; stat = s }) m.status))
    | inr (q, p) ↦
        ground (arith, find-modify tid tid (λ p. record p { block_no = b; stat = s }) m.status)
  ]

  pub find-update_status_ne :
      (t : ℕ) → t ≢ tid → find t (update_status tid b s m).status ≡ find t m.status
  unfolding update_status
  find-update_status_ne t n =
      ground (arith, find-modify tid t (λ p. record p { block_no = b; stat = s }) m.status)
