-- ===== src/Monitor/Grants.antt =====
-- can_read and can_write of src/Monitor.cc under the invariant, and the block that they grant.
use mathlib.Core.Path.{subst}
use system_t.Monitor.Returns.{Returns, Returns-bind}
use system_t.Base.{
  ℕ, ◌≡◌, refl, ◌≢◌, inl, inr, Bool, true, false, some, [], arith, ltb, Bool-cases, Option-cases,
  List, ◌∷◌, not, ◌∙◌, ◌==◌, ◌&&◌,
}
use system_t.Map.{find, find-modify, Map, modify}
use system_t.Outcome.{returns}
use system_t.Monitor.State.{
  Blockholders, Monitor, is_committing, out_of_time, with_writer, Status, preempted, Tstat,
}
use system_t.Monitor.Locks.{
  preempt_writer, contest_writer, update_status, preempt_readers, can_read, contest_readers,
  has_blocker, without_readers, can_write,
}
use system_t.Monitor.Invariant.{
  is_known, HolderOk, Inv, Each-modify, is_known-modify, Grows-modify, Each-mono, Inv-update,
  AllKnown, Inv-status, Inv-blockmap,
}

-- The state after a request for a lock on `b`: on a grant what is left of the holders of `b` has
-- the property `Q`.
pub record Granted (Q : Blockholders → Type 0) (m : Monitor) (b : ℕ) (g : Bool) (m' : Monitor)
    : Type 0 where
  pub inv : Inv m'
  pub same : (t : ℕ) → is_known t m'.status ≡ is_known t m.status
  pub free : g ≡ true → (h : Blockholders) → find b m'.blockmap ≡ some h → Q h

abbrev pub GrantedPair : (Blockholders → Type 0) → Monitor → ℕ → Bool × Monitor → Type 0
GrantedPair Q m b (g, m') = Granted Q m b g m'

abbrev pub HasNoWriter : Blockholders → Type 0
HasNoWriter h = h.writer ≡ 0

abbrev pub HasNoHolder : Blockholders → Type 0
HasNoHolder h = (h.writer ≡ 0) × (h.readers ≡ [])

module _ (Q : Blockholders → Type 0) (m : Monitor) (b : ℕ) (v : Inv m) where
  refuse : Granted Q m b false m
  refuse = record { inv = v; same = λ t. refl; free = λ e. absurd (cc) }

  grant_at_once : ((h : Blockholders) → find b m.blockmap ≡ some h → Q h) → Granted Q m b true m
  grant_at_once q = record { inv = v; same = λ t. refl; free = λ _. q }

  module _ (h : Blockholders) (at : find b m.blockmap ≡ some h) where
    with_writer-HolderOk : HolderOk m.status (with_writer 0 h)
    with_writer-HolderOk = record {
      writer_known = inl refl;
      readers_known = (v.holders b h at).readers_known;
      exclusive = inl refl;
    }

    preempt_writer-Granted : Q (with_writer 0 h) → Granted Q m b true (preempt_writer h.writer b m)
    unfolding preempt_writer
    preempt_writer-Granted q = record {
      inv =
          Inv-update m _ _ v (λ t. is_known-modify t h.writer _ m.status)
            (Each-mono m.status _ (Grows-modify h.writer _ m.status) _ (
              Each-modify (HolderOk m.status) b (with_writer 0) m.blockmap
                (λ k e. let same : h ≡ k = ground arith in rw (← same) with_writer-HolderOk)
                v.holders));
      same = λ t. is_known-modify t h.writer _ m.status;
      free = λ _ k e.
          let same : k ≡ with_writer 0 h =
            ground (arith, find-modify b b (with_writer 0) m.blockmap) in
          rw same q;
    }

    contest_writer-Granted :
        (tid now : ℕ)
        → h.writer ≢ 0
        → Q (with_writer 0 h)
        → Returns (GrantedPair Q m b) (contest_writer h.writer tid b now m)
    unfolding contest_writer
    contest_writer-Granted tid now held q = elim (Option-cases (find h.writer m.status)) [
      | inl e ↦ absurd (ground (arith, (v.holders b h at).writer_known))
      | inr (s, e) ↦
          rw (e, contest_writer)
            (elim (Bool-cases (is_committing s.stat)) [
              | inl c ↦ rw c refuse
              | inr c ↦ rw c (elim (Bool-cases (ltb tid h.writer)) [
                | inl y ↦ rw y (preempt_writer-Granted q)
                | inr y ↦ rw y (elim (Bool-cases (out_of_time now s)) [
                  | inl o ↦ rw o (preempt_writer-Granted q)
                  | inr o ↦ rw o refuse
                ])
              ])
            ])
    ]

pub update_status-Inv : (t b : ℕ) (s : Status) (m : Monitor) → Inv m → Inv (update_status t b s m)
unfolding update_status
update_status-Inv t b s m v = Inv-status m t _ v

pub is_known-update_status :
    (j t b : ℕ) (s : Status) (m : Monitor)
    → is_known j (update_status t b s m).status ≡ is_known j m.status
unfolding update_status
is_known-update_status j t b s m = is_known-modify j t _ m.status

blockmap-update_status :
    (t b : ℕ) (s : Status) (m : Monitor) → (update_status t b s m).blockmap ≡ m.blockmap
unfolding update_status
blockmap-update_status t b s m = refl

preempt_readers-Inv : (rs : List ℕ) (m : Monitor) → Inv m → Inv (preempt_readers rs m)
unfolding preempt_readers
preempt_readers-Inv [] m v = v
preempt_readers-Inv (k ∷ ks) m v =
    preempt_readers-Inv ks (update_status k 0 preempted m) (update_status-Inv k 0 preempted m v)

is_known-preempt_readers :
    (j : ℕ) (rs : List ℕ) (m : Monitor)
    → is_known j (preempt_readers rs m).status ≡ is_known j m.status
unfolding preempt_readers
is_known-preempt_readers j [] m = refl
is_known-preempt_readers j (k ∷ ks) m =
    is_known-preempt_readers j ks (update_status k 0 preempted m)
    ∙ is_known-update_status j k 0 preempted m

pub blockmap-preempt_readers :
    (rs : List ℕ) (m : Monitor) → (preempt_readers rs m).blockmap ≡ m.blockmap
unfolding preempt_readers
blockmap-preempt_readers [] m = refl
blockmap-preempt_readers (k ∷ ks) m =
    blockmap-preempt_readers ks (update_status k 0 preempted m)
    ∙ blockmap-update_status k 0 preempted m

has_blocker-Returns :
    (tid now : ℕ) (st : Map Tstat) (rs : List ℕ)
    → AllKnown st rs
    → Returns (λ _. Unit {0}) (has_blocker tid now st rs)
unfolding has_blocker
has_blocker-Returns tid now st [] k = tt
has_blocker-Returns tid now st (r ∷ rs) k = elim (Option-cases (find r st)) [
  | inl e ↦ absurd (ground (arith, k.0))
  | inr (s, e) ↦
      rw (e, has_blocker)
        (elim (Bool-cases (not (is_committing s.stat) && (ltb r tid && not (out_of_time now s)))) [
          | inl t ↦ rw t tt
          | inr t ↦ rw t (has_blocker-Returns tid now st rs k.1)
        ])
]

module _ (m : Monitor) (b : ℕ) (v : Inv m) where
  evict_readers-Granted :
      (h : Blockholders) (rs : List ℕ)
      → find b m.blockmap ≡ some h
      → h.writer ≡ 0
      → Granted HasNoHolder m b true (record (preempt_readers rs m) {
        blockmap = modify b without_readers (preempt_readers rs m).blockmap;
      })
  evict_readers-Granted h rs at free = rw (blockmap-preempt_readers rs m) (record {
    inv = Inv-blockmap (preempt_readers rs m) _ (preempt_readers-Inv rs m v) (
        Each-modify (HolderOk (preempt_readers rs m).status) b without_readers m.blockmap
          (λ k e. record {
            writer_known = inl (let same : k ≡ h = ground arith in rw same free);
            readers_known = tt;
            exclusive = inr refl;
          })
          (Each-mono m.status _ (λ t k. is_known-preempt_readers t rs m ∙ k) m.blockmap v.holders));
    same = λ t. is_known-preempt_readers t rs m;
    free = λ _ k e.
        let same : k ≡ without_readers h =
          ground (arith, find-modify b b without_readers m.blockmap) in
        rw same (free, refl);
  })

  contest_readers-Granted :
      (h : Blockholders) (rs : List ℕ) (tid now : ℕ)
      → find b m.blockmap ≡ some h
      → h.writer ≡ 0
      → AllKnown m.status rs
      → Returns (GrantedPair HasNoHolder m b) (contest_readers rs tid b now m)
  unfolding contest_readers
  contest_readers-Granted h rs tid now at free known =
      Returns-bind (λ _. Unit {0}) (GrantedPair HasNoHolder m b) (has_blocker tid now m.status rs) _
        (has_blocker-Returns tid now m.status rs known)
        (λ found _. elim (Bool-cases found) [
          | inl e ↦ rw e (refuse HasNoHolder m b v)
          | inr e ↦ rw e (evict_readers-Granted h rs at free)
        ])

  -- can_read returns, and grants only a block that nobody writes any more.
  pub can_read-Granted :
      (tid now : ℕ) → Returns (GrantedPair HasNoWriter m b) (can_read tid b now m)
  unfolding can_read
  can_read-Granted tid now = elim (Option-cases (find b m.blockmap)) [
    | inl e ↦ rw (e, can_read) (grant_at_once HasNoWriter m b v (λ k f. absurd (cc)))
    | inr (h, e) ↦
        rw (e, can_read)
          (elim (Bool-cases (h.writer == 0)) [
            | inl z ↦ rw z (
                grant_at_once HasNoWriter m b v
                  (λ k f. let same : h ≡ k = ground arith in rw (← same) (ground arith)))
            | inr z ↦
                rw z (contest_writer-Granted HasNoWriter m b v h e tid now (ground arith) refl)
          ])
  ]

  -- can_write returns, and grants only a block that nobody holds any more.
  pub can_write-Granted :
      (tid now : ℕ) → Returns (GrantedPair HasNoHolder m b) (can_write tid b now m)
  unfolding can_write
  can_write-Granted tid now = elim (Option-cases (find b m.blockmap)) [
    | inl e ↦ rw (e, can_write) (grant_at_once HasNoHolder m b v (λ k f. absurd (cc)))
    | inr (h, e) ↦
        rw (e, can_write)
          (elim (Bool-cases (h.writer == 0)) [
            | inl z ↦ rw z (readers_case h h.readers e refl (ground arith))
            | inr z ↦ rw z (
                contest_writer-Granted HasNoHolder m b v h e tid now (ground arith)
                  (refl, ground (arith, (v.holders b h e).exclusive)))
          ])
  ]
    where
      readers_case :
          (h : Blockholders) (rs : List ℕ)
          → find b m.blockmap ≡ some h
          → h.readers ≡ rs
          → h.writer ≡ 0
          → Returns (GrantedPair HasNoHolder m b) (elim rs [
            | [] ↦ returns (true, m)
            | r ∷ rest ↦ contest_readers (r ∷ rest) tid b now m
          ])
      readers_case h [] e r z =
          grant_at_once HasNoHolder m b v
            (λ k f. let same : h ≡ k = ground arith in rw (← same) (z, r))
      readers_case h (r ∷ rest) e p z =
          contest_readers-Granted h (r ∷ rest) tid now e z
            (subst (AllKnown m.status) p (v.holders b h e).readers_known)
