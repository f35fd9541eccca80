-- ===== src/Monitor/Keeps.antt =====
-- The invariant and the changes of the lock table that the handlers of src/Monitor.cc make.
use system_t.Monitor.Returns.{Returns}
use system_t.Base.{
  ℕ, ◌≡◌, refl, ◌∙◌, ◌≢◌, inl, inr, Bool, true, false, some, List, [], ◌∷◌, arith, if◌then◌else◌,
  Option-cases,
}
use system_t.Map.{Map, find, find-modify}
use system_t.Outcome.{Outcome, returns, exits, undefined, running, ◌>>=◌}
use system_t.Trq.{Trq}
use system_t.Monitor.State.{Status, Tstat, Blockholders, Monitor, with_writer}
use system_t.Monitor.Locks.{
  remove, update_status, set_writer, set_reader, check_sole_reader, remove_reader,
}
use system_t.Monitor.Invariant.{
  is_known, AllKnown, HolderOk, Inv, Each-insert, Each-modify, Inv-blockmap,
}
use system_t.Monitor.Grants.{Granted, GrantedPair, HasNoWriter, HasNoHolder, update_status-Inv}

-- What a handler leaves behind.
abbrev pub KeepsInv : Outcome (Monitor × Trq) → Type 0
KeepsInv = Returns (λ r. Inv r.0)

set_writer-Inv :
    (b tid : ℕ) (m : Monitor)
    → Inv m
    → is_known tid m.status ≡ true
    → ((h : Blockholders) → find b m.blockmap ≡ some h → HasNoHolder h)
    → Inv (set_writer b tid m)
unfolding set_writer
set_writer-Inv b tid m v known free = elim (Option-cases (find b m.blockmap)) [
  | inl e ↦
      rw (e, set_writer)
        (Inv-blockmap m _ v (
          Each-insert (HolderOk m.status) b _ m.blockmap
            (record { writer_known = inr known; readers_known = tt; exclusive = inr refl })
            v.holders))
  | inr (h, e) ↦
      rw (e, set_writer)
        (Inv-blockmap m _ v (
          Each-modify (HolderOk m.status) b (with_writer tid) m.blockmap
            (λ k f. record {
              writer_known = inr known;
              readers_known = (v.holders b k f).readers_known;
              exclusive = inr (free k f).1;
            })
            v.holders))
]

set_reader-Inv :
    (b tid : ℕ) (m : Monitor)
    → Inv m
    → is_known tid m.status ≡ true
    → ((h : Blockholders) → find b m.blockmap ≡ some h → HasNoWriter h)
    → Inv (set_reader b tid m)
unfolding set_reader
set_reader-Inv b tid m v known free = elim (Option-cases (find b m.blockmap)) [
  | inl e ↦
      rw (e, set_reader)
        (Inv-blockmap m _ v (
          Each-insert (HolderOk m.status) b _ m.blockmap
            (record { writer_known = inl refl; readers_known = (known, tt); exclusive = inl refl })
            v.holders))
  | inr (h, e) ↦
      rw (e, set_reader)
        (Inv-blockmap m _ v (
          Each-modify (HolderOk m.status) b _ m.blockmap
            (λ k f. record {
              writer_known = inl (free k f);
              readers_known = (known, (v.holders b k f).readers_known);
              exclusive = inl (free k f);
            })
            v.holders))
]

module _ (tid b : ℕ) (s : Status) (m m' : Monitor) (known : is_known tid m.status ≡ true) where
  pub take_write-Inv :
      Granted HasNoHolder m b true m' → Inv (update_status tid b s (set_writer b tid m'))
  take_write-Inv g =
      update_status-Inv tid b s _ (set_writer-Inv b tid m' g.inv (g.same tid ∙ known) (g.free refl))

  pub take_read-Inv :
      Granted HasNoWriter m b true m' → Inv (update_status tid b s (set_reader b tid m'))
  take_read-Inv g =
      update_status-Inv tid b s _ (set_reader-Inv b tid m' g.inv (g.same tid ∙ known) (g.free refl))

-- The shape of a handler that asks for a lock.
pub lock_rq-Inv :
    (Q : Blockholders → Type 0) (m : Monitor) (b : ℕ) (o : Outcome (Bool × Monitor))
    (take : Monitor → Monitor) (granted refused : Trq)
    → Returns (GrantedPair Q m b) o
    → ((m' : Monitor) → Granted Q m b true m' → Inv (take m'))
    → KeepsInv (o >>= λ (g, m'). if g then returns (take m', granted) else returns (m', refused))
lock_rq-Inv Q m b (returns (true, m')) take granted refused p k = k m' p
lock_rq-Inv Q m b (returns (false, m')) take granted refused p k = p.inv
lock_rq-Inv Q m b exits take granted refused p k = p
lock_rq-Inv Q m b undefined take granted refused p k = p
lock_rq-Inv Q m b running take granted refused p k = p

AllKnown-remove :
    (st : Map Tstat) (t : ℕ) (rs : List ℕ) → AllKnown st rs → AllKnown st (remove t rs)
unfolding remove
AllKnown-remove st t [] k = tt
AllKnown-remove st t (r ∷ rs) k = ground (arith, AllKnown-remove st t rs k.1)

remove-nil : (t : ℕ) (rs : List ℕ) → rs ≡ [] → remove t rs ≡ []
unfolding remove
remove-nil t [] e = refl
remove-nil t (r ∷ rs) e = absurd (cc)

remove_self : (t : ℕ) (rs : List ℕ) → rs ≡ t ∷ [] → remove t rs ≡ []
unfolding remove
remove_self t rs e = rw e (ground arith)

-- Where readers.front() is not read from an empty list by mistake, the check means what it says.
pub check_sole_reader-cases :
    (front_of_empty tid b : ℕ) (m : Monitor)
    → tid ≢ front_of_empty
    → check_sole_reader front_of_empty tid b m ≡ true
    → (h : Blockholders) × (find b m.blockmap ≡ some h) × (h.readers ≡ tid ∷ [])
unfolding check_sole_reader
check_sole_reader-cases front_of_empty tid b m apart sole =
    elim (Option-cases (find b m.blockmap)) [
      | inl e ↦ absurd (ground arith)
      | inr (h, e) ↦ (h, e, ground arith)
    ]

module _ (tid b : ℕ) (m : Monitor) (v : Inv m) where
  remove_reader-Inv : Inv (remove_reader b tid m)
  unfolding remove_reader
  remove_reader-Inv = Inv-blockmap m _ v (
      Each-modify (HolderOk m.status) b _ m.blockmap
        (λ k f. record {
          writer_known = (v.holders b k f).writer_known;
          readers_known = AllKnown-remove m.status tid k.readers (v.holders b k f).readers_known;
          exclusive = elim (v.holders b k f).exclusive [
            | inl z ↦ inl z
            | inr z ↦ inr (remove-nil tid k.readers z)
          ];
        })
        v.holders)

  -- After the upgrade of its sole reader a block has no holder.
  pub remove_reader-Granted :
      (h : Blockholders)
      → find b m.blockmap ≡ some h
      → h.readers ≡ tid ∷ []
      → Granted HasNoHolder m b true (remove_reader b tid m)
  unfolding remove_reader
  remove_reader-Granted h at sole = record {
    inv = unfold remove_reader in remove_reader-Inv;
    same = λ t. refl;
    free = λ _ k e.
        let same : k ≡ record h { readers = remove tid h.readers } =
          ground (
            arith,
            find-modify b b (λ p. record p { readers = remove tid p.readers }) m.blockmap,
          ) in
        rw same (ground (arith, (v.holders b h at).exclusive), remove_self tid h.readers sole);
  }
