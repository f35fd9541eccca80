-- ===== src/Monitor/Readers.antt =====
-- The readers of blocks in src/Monitor.cc, and a transaction that is not among them.
use system_t.Monitor.Returns.{IfReturns, IfReturns-bind, IfReturns-if}
use system_t.Base.{
  ℕ, ◌≡◌, sym, ◌≢◌, ◌⊎◌, inl, inr, Bool, List, [], ◌∷◌, ltb, ◌==◌, Bool-cases, Option-cases,
}
use system_t.Map.{find, Map}
use system_t.Trq.{Trq}
use system_t.Monitor.State.{Monitor, Blockholders, with_writer, is_committing, out_of_time}
use system_t.Monitor.Locks.{
  remove, update_status, preempt_writer, contest_writer, can_read, set_reader,
}
use system_t.Monitor.Handlers.{read_rq, drop_holder, flush_transaction}
use system_t.Monitor.Server.{forget}
use system_t.Monitor.Invariant.{Each, Each-insert, Each-modify, Each-map_values}
use system_t.Monitor.Policy.Evict.{Member}

module _ (c : ℕ) where
  abbrev pub Absent : Blockholders → Type 0
  Absent h = ¬ Member c h.readers

  -- It reads no block.
  abbrev pub ReadsNone : Map Blockholders → Type 0
  ReadsNone blocks = Each Absent blocks

  abbrev Asked : Bool × Monitor → Type 0
  Asked (g, m') = ReadsNone m'.blockmap

  contest_writer-ReadsNone :
      (w tid b now : ℕ) (m : Monitor)
      → ReadsNone m.blockmap
      → IfReturns Asked (contest_writer w tid b now m)
  unfolding contest_writer preempt_writer
  contest_writer-ReadsNone w tid b now m n = elim (Option-cases (find w m.status)) [
    | inl e ↦ rw (e, contest_writer) tt
    | inr (q, e) ↦
        let taken : ReadsNone (preempt_writer w b m).blockmap =
          unfold preempt_writer in
          Each-modify Absent b (with_writer 0) m.blockmap (λ h f. n b h f) n in
        rw (e, contest_writer)
          (IfReturns-if Asked (is_committing q.stat) _ _ n (
            IfReturns-if Asked (ltb tid w) _ _ taken
              (IfReturns-if Asked (out_of_time now q) _ _ taken n)))
  ]

  can_read-ReadsNone :
      (tid b now : ℕ) (m : Monitor) → ReadsNone m.blockmap → IfReturns Asked (can_read tid b now m)
  unfolding can_read
  can_read-ReadsNone tid b now m n = elim (Option-cases (find b m.blockmap)) [
    | inl e ↦ rw (e, can_read) n
    | inr (h, e) ↦
        rw (e, can_read)
          (IfReturns-if Asked (h.writer == 0) _ _ n
            (contest_writer-ReadsNone h.writer tid b now m n))
  ]

  set_reader-ReadsNone :
      (b tid : ℕ) (m : Monitor)
      → c ≢ tid
      → ReadsNone m.blockmap
      → ReadsNone (set_reader b tid m).blockmap
  unfolding set_reader
  set_reader-ReadsNone b tid m other n = elim (Option-cases (find b m.blockmap)) [
    | inl e ↦
        rw (e, set_reader)
          (Each-insert Absent b _ m.blockmap (elim [ inl p ↦ other (sym p) | inr p ↦ p ]) n)
    | inr (h, e) ↦
        rw (e, set_reader)
          (Each-modify Absent b _ m.blockmap
            (λ k f. elim [ inl p ↦ other (sym p) | inr p ↦ n b k f p ]) n)
  ]

  pub read_rq-ReadsNone :
      (t : Trq) (now : ℕ) (m : Monitor)
      → c ≢ t.tid
      → ReadsNone m.blockmap
      → IfReturns (λ r. ReadsNone r.0.blockmap) (read_rq t now m)
  unfolding read_rq update_status
  read_rq-ReadsNone t now m other n =
      IfReturns-bind Asked (λ r. ReadsNone r.0.blockmap) (can_read t.tid t.block_no now m) _
        (can_read-ReadsNone t.tid t.block_no now m n)
        (λ (g, a) k.
          IfReturns-if (λ r. ReadsNone r.0.blockmap) g _ _
            (unfold update_status in set_reader-ReadsNone t.block_no t.tid a other k) k)

  Member-remove_sub : (t : ℕ) (rs : List ℕ) → Member c (remove t rs) → Member c rs
  unfolding remove
  Member-remove_sub t [] h = h
  Member-remove_sub t (r ∷ rs) h = elim (Bool-cases (r == t)) [
    | inl e ↦ inr (Member-remove_sub t rs (rw (e, remove) at h))
    | inr e ↦
        let h' : (r ≡ c) ⊎ Member c (remove t rs) = rw (e, remove) at h in
        elim h' [ inl p ↦ inl p | inr k ↦ inr (Member-remove_sub t rs k) ]
  ]

  pub forget-ReadsNone :
      (fd tid : ℕ) (m : Monitor) → ReadsNone m.blockmap → ReadsNone (forget fd tid m).blockmap
  unfolding forget flush_transaction
  forget-ReadsNone fd tid m n = elim (Option-cases (find tid m.status)) [
    | inl e ↦ rw (e, forget, flush_transaction) n
    | inr (p, e) ↦
        rw (e, forget, flush_transaction)
          (Each-map_values Absent (drop_holder tid) m.blockmap
            (λ h k. elim (Bool-cases (h.writer == tid)) [
              | inl w ↦ rw w k
              | inr w ↦ rw w (λ r. k (Member-remove_sub tid h.readers r))
            ])
            n)
  ]
