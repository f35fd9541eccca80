-- ===== src/Monitor/Doom.antt =====
-- Transactions that were preempted, and the requests to src/Monitor.cc that follow.
use system_t.Monitor.Returns.{Returns, Returns-map}
use system_t.Monitor.Policy.Taking.{WriteTaken, ReadTaken, Refused}
use mathlib.Core.Path.{subst}
use system_t.Base.{
  ℕ, ◌<◌, ◌≡◌, refl, ◌≢◌, ◌⊎◌, inl, inr, true, false, List, [], ◌∷◌, arith, ◌==◌, Bool-cases,
  Option-cases, sym, ◌∙◌,
}
use system_t.Map.{find, find-modify_cases, find-insert_cases, modify}
use system_t.Outcome.{returns}
use system_t.Trq.{
  Request, Trq, begin, commit, end, read, write, abort, allocate, release, restart, die,
}
use system_t.Monitor.State.{
  Status, preempted, Tstat, Blockholders, Monitor, with_stat, is_committing, ended,
}
use system_t.Monitor.Handlers.{
  answer, note_status, abort_rq, commit_rq, restart_rq, end_rq, begin_rq, was_preempted, dispatch,
  is_begin, process_clientrq,
}
use system_t.Monitor.Invariant.{is_known, Inv}
use system_t.Monitor.Safety.{IsServed}
use system_t.Monitor.Policy.Evict.{Member, IsHolder, IsWriter, IsDoomed}
use system_t.Monitor.Policy.Entries.{HolderAt, WriterAt, Taken}
use system_t.Monitor.Policy.Requests.{
  allocate_rq-arbitrates, release_rq-arbitrates, read_rq-arbitrates, write_rq-arbitrates,
}

is_begin_ne : (r : Request) → r ≢ begin → is_begin r ≡ false
is_begin_ne begin n = absurd (n refl)
is_begin_ne r n = refl

pub is_begin_eq : (r : Request) → is_begin r ≡ true → r ≡ begin
is_begin_eq begin e = refl
is_begin_eq r e = absurd (cc)

-- A preempted transaction is told to die, whatever it asks for but BEGIN, and nothing changes.
pub preempted_dies :
    (front_of_empty who now : ℕ) (t : Trq) (m : Monitor)
    → IsDoomed t.tid m
    → is_known t.tid m.status ≡ true
    → t.request ≢ begin
    → process_clientrq front_of_empty t who now m ≡ returns (m, answer t die)
unfolding process_clientrq was_preempted
preempted_dies front_of_empty who now t m d k n = elim (Option-cases (find t.tid m.status)) [
  | inl e ↦ absurd (ground arith)
  | inr (s, e) ↦
      let gone : s.stat ≡ preempted = d s e in
      rw (is_begin_ne t.request n, e, was_preempted, gone) refl
]

doomed_was_preempted :
    (t : ℕ) (m : Monitor)
    → is_known t m.status ≡ true
    → IsDoomed t m
    → was_preempted t m ≡ false
    → ⊥
unfolding was_preempted
doomed_was_preempted t m k d p = elim (Option-cases (find t m.status)) [
  | inl e ↦ ground arith
  | inr (s, e) ↦ let gone : s.stat ≡ preempted = d s e in ground arith
]

-- Whether a transaction holds a block can be decided.
Member-cases : (t : ℕ) (rs : List ℕ) → Member t rs ⊎ (¬ Member t rs)
Member-cases t [] = inr (λ h. h)
Member-cases t (r ∷ rs) = elim (Bool-cases (r == t)) [
  | inl e ↦ inl (inl (ground arith))
  | inr e ↦ elim (Member-cases t rs) [
    | inl h ↦ inl (inr h)
    | inr n ↦ inr (elim [ inl p ↦ ground arith | inr h ↦ n h ])
  ]
]

IsWriter-cases : (t : ℕ) (h : Blockholders) → IsWriter t h ⊎ (¬ IsWriter t h)
IsWriter-cases t h = elim (Bool-cases (t == 0)) [
  | inl z ↦ inr (λ w. let pos = w.0 in ground arith)
  | inr z ↦ elim (Bool-cases (h.writer == t)) [
    | inl e ↦ inl (ground arith, ground arith)
    | inr e ↦ inr (λ w. let same = w.1 in ground arith)
  ]
]

HolderAt-cases : (m : Monitor) (b t : ℕ) → HolderAt m b t ⊎ (¬ HolderAt m b t)
HolderAt-cases m b t = elim (Option-cases (find b m.blockmap)) [
  | inl e ↦ inr (λ k. let (h, at, _) = k in cc)
  | inr (h, e) ↦ elim (Member-cases t h.readers) [
    | inl reads ↦ inl (h, e, inr reads)
    | inr no_read ↦ elim (IsWriter-cases t h) [
      | inl writes ↦ inl (h, e, inl writes)
      | inr no_write ↦ inr λ k.
          let (k', at, holds) = k in
          let same : k' ≡ h = cc in
          elim (subst (IsHolder t) same holds) [ inl w ↦ no_write w | inr r ↦ no_read r ]
    ]
  ]
]

WriterAt-cases : (m : Monitor) (b t : ℕ) → WriterAt m b t ⊎ (¬ WriterAt m b t)
WriterAt-cases m b t = elim (Option-cases (find b m.blockmap)) [
  | inl e ↦ inr (λ k. let (h, at, _) = k in cc)
  | inr (h, e) ↦ elim (IsWriter-cases t h) [
    | inl writes ↦ inl (h, e, writes)
    | inr no_write ↦ inr λ k.
        let (k', at, writes) = k in
        let same : k' ≡ h = cc in no_write (subst (IsWriter t) same writes)
  ]
]

Taken-IsDoomed :
    {Loser : ℕ → Type 0} {b tid : ℕ} {stat : Status} {m m' : Monitor} (c : ℕ)
    → (Loser c ⊎ (¬ Loser c))
    → Taken Loser b tid stat m m'
    → c ≢ tid
    → IsDoomed c m
    → IsDoomed c m'
Taken-IsDoomed c (inl lost) taken n d = taken.doomed c n lost
Taken-IsDoomed c (inr kept) taken n d = λ s e. d s (sym (taken.spared c n kept) ∙ e)

module _ (c : ℕ) (m : Monitor) (d : IsDoomed c m) where
  modify-IsDoomed :
      (k : ℕ) (f : Tstat → Tstat) → c ≢ k → IsDoomed c (record m { status = modify k f m.status })
  modify-IsDoomed k f n s e =
      let (v, p, either) = find-modify_cases k c f s m.status e in
      elim either [ inl (q, _) ↦ absurd (n (sym q)) | inr (_, q) ↦ rw q (d v p) ]

  note_status-IsDoomed : (s : Status) (rq : Trq) → c ≢ rq.tid → IsDoomed c (note_status s rq m).0
  unfolding note_status
  note_status-IsDoomed s rq n = elim (Option-cases (find rq.tid m.status)) [
    | inl e ↦ rw (e, note_status) d
    | inr (p, e) ↦ rw (e, note_status) (modify-IsDoomed rq.tid (with_stat s) n)
  ]

  end_rq-IsDoomed : (rq : Trq) → c ≢ rq.tid → IsDoomed c (end_rq rq m).0
  unfolding end_rq
  end_rq-IsDoomed rq n = elim (Option-cases (find rq.tid m.status)) [
    | inl e ↦ rw (e, end_rq) d
    | inr (p, e) ↦
        rw (e, end_rq)
          (elim (Bool-cases (is_committing p.stat)) [
            | inl b ↦ rw b (modify-IsDoomed rq.tid (with_stat ended) n)
            | inr b ↦ rw b d
          ])
  ]

  begin_rq-IsDoomed : (t : Trq) (who now : ℕ) → c < m.next_tid → IsDoomed c (begin_rq t who now m).0
  unfolding begin_rq
  begin_rq-IsDoomed t who now old s e = elim (find-insert_cases m.next_tid c _ s m.status e) [
    | inl (q, _) ↦ absurd (omega arith)
    | inr (_, p) ↦ d s p
  ]

module _ (front_of_empty c who now : ℕ) (t : Trq) (m : Monitor) (v : Inv m)
    (known : is_known c m.status ≡ true) (d : IsDoomed c m) where
  written-IsDoomed :
      (stat : Status)
      → c ≢ t.tid
      → (r : Monitor × Trq)
      → (WriteTaken m t.block_no t.tid now stat r ⊎ Refused m t.block_no t.tid now stat r)
      → IsDoomed c r.0
  written-IsDoomed stat n r (inl taken) =
      Taken-IsDoomed c (HolderAt-cases m t.block_no c) taken.2 n d
  written-IsDoomed stat n r (inr refused) = subst (IsDoomed c) (sym refused.1) d

  read-IsDoomed :
      (stat : Status)
      → c ≢ t.tid
      → (r : Monitor × Trq)
      → (ReadTaken m t.block_no t.tid now stat r ⊎ Refused m t.block_no t.tid now stat r)
      → IsDoomed c r.0
  read-IsDoomed stat n r (inl taken) = Taken-IsDoomed c (WriterAt-cases m t.block_no c) taken.2 n d
  read-IsDoomed stat n r (inr refused) = subst (IsDoomed c) (sym refused.1) d

  dispatch-IsDoomed :
      (r : Request)
      → IsServed front_of_empty r t.tid m
      → (r ≢ begin → c ≢ t.tid)
      → Returns (λ r. IsDoomed c r.0) (dispatch front_of_empty r t who now m)
  unfolding dispatch abort_rq commit_rq restart_rq
  dispatch-IsDoomed begin s n = begin_rq-IsDoomed c m d t who now (v.ids c known).1
  dispatch-IsDoomed allocate s n =
      Returns-map _ (λ r. IsDoomed c r.0) _ (written-IsDoomed _ (n (λ e. cc)))
        (allocate_rq-arbitrates m v t now)
  dispatch-IsDoomed release s n =
      Returns-map _ (λ r. IsDoomed c r.0) _ (written-IsDoomed _ (n (λ e. cc)))
        (release_rq-arbitrates m v t now)
  dispatch-IsDoomed read s n =
      Returns-map _ (λ r. IsDoomed c r.0) _ (read-IsDoomed _ (n (λ e. cc)))
        (read_rq-arbitrates m v t now)
  dispatch-IsDoomed write s n =
      Returns-map _ (λ r. IsDoomed c r.0) _ (written-IsDoomed _ (n (λ e. cc)))
        (write_rq-arbitrates m v t now front_of_empty (s.apart (λ e. cc)))
  dispatch-IsDoomed restart s n = note_status-IsDoomed c m d _ t (n (λ e. cc))
  dispatch-IsDoomed abort s n = note_status-IsDoomed c m d _ t (n (λ e. cc))
  dispatch-IsDoomed commit s n = note_status-IsDoomed c m d _ t (n (λ e. cc))
  dispatch-IsDoomed end s n = end_rq-IsDoomed c m d t (n (λ e. cc))

  -- Whatever request comes in next, of its own or of another transaction, a transaction that is
  -- marked as preempted stays marked.
  pub process_clientrq-IsDoomed :
      IsServed front_of_empty t.request t.tid m
      → Returns (λ r. IsDoomed c r.0) (process_clientrq front_of_empty t who now m)
  unfolding process_clientrq
  process_clientrq-IsDoomed s = elim (Bool-cases (is_begin t.request)) [
    | inl b ↦ rw b (dispatch-IsDoomed t.request s (λ n. absurd (n (is_begin_eq t.request b))))
    | inr b ↦ rw b (elim (Bool-cases (was_preempted t.tid m)) [
      | inl p ↦ rw p d
      | inr p ↦ rw p (dispatch-IsDoomed t.request s (λ _ same. not_itself p same))
    ])
  ]
    where
      not_itself : was_preempted t.tid m ≡ false → ¬ (c ≡ t.tid)
      not_itself p same =
          (doomed_was_preempted t.tid m (subst (λ c. is_known c m.status ≡ true) same known)
            (subst (λ c. IsDoomed c m) same d) p)
