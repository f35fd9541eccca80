-- ===== src/Monitor/Policy/ReaderList.antt =====
-- The readers of a block in src/Monitor.cc while somebody asks to read it.
use system_t.Base.{
  ℕ, ◌≡◌, refl, inl, inr, Bool, none, some, List, [], ◌∷◌, arith, ltb, ◌==◌, Option-cases,
}
use system_t.Map.{find, find-insert, find-modify}
use system_t.Monitor.State.{Monitor, Blockholders, with_writer, is_committing, out_of_time}
use system_t.Monitor.Locks.{preempt_writer, contest_writer, can_read, set_reader}
use system_t.Monitor.Returns.{IfReturns, IfReturns-if}
use system_t.Monitor.Grants.{HasNoWriter}

-- The list of readers; a block with no entry has none.
abbrev pub readers_at : ℕ → Monitor → List ℕ
readers_at b m = elim (find b m.blockmap) [ none ↦ [] | some h ↦ h.readers ]

module _ (tid b now : ℕ) (m : Monitor) where
  abbrev Kept : Bool × Monitor → Type 0
  Kept (g, m') = readers_at b m' ≡ readers_at b m

  preempt_writer-Kept : (w : ℕ) → readers_at b (preempt_writer w b m) ≡ readers_at b m
  unfolding preempt_writer
  preempt_writer-Kept w = ground (arith, find-modify b b (with_writer 0) m.blockmap)

  contest_writer-Kept : (w : ℕ) → IfReturns Kept (contest_writer w tid b now m)
  unfolding contest_writer
  contest_writer-Kept w = elim (Option-cases (find w m.status)) [
    | inl e ↦ rw (e, contest_writer) tt
    | inr (q, e) ↦
        rw (e, contest_writer)
          (IfReturns-if Kept (is_committing q.stat) _ _ refl (
            IfReturns-if Kept (ltb tid w) _ _ (preempt_writer-Kept w)
              (IfReturns-if Kept (out_of_time now q) _ _ (preempt_writer-Kept w) refl)))
  ]

  -- Whoever is granted to read a block, its readers are not changed by the test.
  pub can_read-Kept : IfReturns Kept (can_read tid b now m)
  unfolding can_read
  can_read-Kept = elim (Option-cases (find b m.blockmap)) [
    | inl e ↦ rw (e, can_read) refl
    | inr (h, e) ↦
        rw (e, can_read) (IfReturns-if Kept (h.writer == 0) _ _ refl (contest_writer-Kept h.writer))
  ]

-- set_reader puts the reader before the others.
pub find-set_reader :
    (b tid : ℕ) (m : Monitor)
    → ((h : Blockholders) → find b m.blockmap ≡ some h → HasNoWriter h)
    → find b (set_reader b tid m).blockmap
      ≡ some (record { readers = tid ∷ readers_at b m; writer = 0 })
unfolding set_reader
find-set_reader b tid m free = elim (Option-cases (find b m.blockmap)) [
  | inl e ↦
      rw (e, set_reader)
        (ground (arith, find-insert b b (record { readers = tid ∷ []; writer = 0 }) m.blockmap))
  | inr (h, e) ↦
      rw (e, set_reader)
        (ground (
          arith,
          find-modify b b (λ p. record p { readers = tid ∷ p.readers }) m.blockmap,
          free h e,
        ))
]
