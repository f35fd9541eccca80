-- ===== src/Monitor/Runs.antt =====
-- Runs of the monitor of src/Monitor.cc: connections, requests and disconnections in any order.
use system_t.Monitor.Returns.{Returns, Returns-map}
use system_t.Monitor.Policy.Taking.{ReadTaken, WriteTaken, Refused}
use system_t.Monitor.Flush.{forget-IsForgotten, forget-Inv}
use system_t.Monitor.Doom.{preempted_dies, process_clientrq-IsDoomed}
use system_t.Monitor.Policy.Requests.{
  allocate_rq-arbitrates, release_rq-arbitrates, read_rq-arbitrates, write_rq-arbitrates,
}
use system_t.Monitor.Handlers.{
  end_rq, note_status, process_clientrq, dispatch, answer, begin_rq, is_begin, abort_rq,
  was_preempted, commit_rq, restart_rq,
}
use mathlib.Core.Path.{subst}
use system_t.Monitor.Safety.{IsServed, process_clientrq-Inv}
use system_t.Monitor.Policy.Evict.{IsDoomed}
use system_t.Monitor.Invariant.{Inv, is_known, Grows, Grows-modify, Grows-insert}
use system_t.Monitor.State.{Monitor, Status, Tstat, is_committing, with_stat, ended}
use system_t.Monitor.Server.{accept_client, forget}
use system_t.Base.{ℕ, ◌≡◌, sym, ◌∙◌, ◌≢◌, ◌⊎◌, inl, inr, true, some, Bool-cases, Option-cases}
use system_t.Map.{find}
use system_t.Outcome.{returns}
use system_t.Trq.{
  Request, Trq, begin, commit, end, read, write, abort, allocate, release, restart, die,
}

-- `may_leave` tells which transactions may disconnect on the way.
pub data Reaches (front_of_empty : ℕ) (may_leave : ℕ → Type 0) (m : Monitor)
    : Monitor → Type 0 where
  here : Reaches front_of_empty may_leave m m
  connected :
      {a : Monitor} (fd : ℕ)
      → Reaches front_of_empty may_leave m a
      → Reaches front_of_empty may_leave m (accept_client fd a)
  served :
      {a b : Monitor} (t r : Trq) (who now : ℕ)
      → Reaches front_of_empty may_leave m a
      → IsServed front_of_empty t.request t.tid a
      → process_clientrq front_of_empty t who now a ≡ returns (b, r)
      → Reaches front_of_empty may_leave m b
  disconnected :
      {a : Monitor} (fd tid : ℕ) (s : Tstat)
      → Reaches front_of_empty may_leave m a
      → may_leave tid
      → find fd a.transactions ≡ some tid
      → find tid a.status ≡ some s
      → Reaches front_of_empty may_leave m (forget fd tid a)

pub accept_client-Inv : (fd : ℕ) (m : Monitor) → Inv m → Inv (accept_client fd m)
unfolding accept_client
accept_client-Inv fd m v = record {
  holders = v.holders;
  ids = v.ids;
  sessions = v.sessions;
  started = v.started;
}

module _ {front_of_empty : ℕ} {may_leave : ℕ → Type 0} where
  -- A run of requests that fit the state in which they come keeps the invariant.
  pub Reaches-Inv : {m m' : Monitor} → Inv m → Reaches front_of_empty may_leave m m' → Inv m'
  Reaches-Inv v here = v
  Reaches-Inv v (connected {a} fd run) = accept_client-Inv fd a (Reaches-Inv v run)
  Reaches-Inv v (served {a} t r who now run ok_rq e) =
      subst (Returns (λ (r : Monitor × Trq). Inv r.0)) e
        (process_clientrq-Inv front_of_empty t who now a (Reaches-Inv v run) ok_rq)
  Reaches-Inv v (disconnected {a} fd tid s run may own at) =
      forget-Inv tid a (Reaches-Inv v run) s at fd

module _ (front_of_empty who now : ℕ) (t : Trq) (m : Monitor) (v : Inv m) where
  -- No request makes the monitor forget a transaction.
  abbrev pub KeepsKnown : Monitor × Trq → Type 0
  KeepsKnown r = Grows m.status r.0.status

  written-Grows :
      (b tid : ℕ) (stat : Status) (r : Monitor × Trq)
      → (WriteTaken m b tid now stat r ⊎ Refused m b tid now stat r)
      → KeepsKnown r
  written-Grows b tid stat r (inl w) c k = w.2.known c ∙ k
  written-Grows b tid stat r (inr w) c k = rw w.1 k

  read-Grows :
      (b tid : ℕ) (stat : Status) (r : Monitor × Trq)
      → (ReadTaken m b tid now stat r ⊎ Refused m b tid now stat r)
      → KeepsKnown r
  read-Grows b tid stat r (inl w) c k = w.2.known c ∙ k
  read-Grows b tid stat r (inr w) c k = rw w.1 k

  note_status-Grows : (s : Status) → KeepsKnown (note_status s t m)
  unfolding note_status
  note_status-Grows s = elim (Option-cases (find t.tid m.status)) [
    | inl e ↦ rw (e, note_status) (λ c k. k)
    | inr (p, e) ↦ rw (e, note_status) (Grows-modify t.tid (with_stat s) m.status)
  ]

  end_rq-Grows : KeepsKnown (end_rq t m)
  unfolding end_rq
  end_rq-Grows = elim (Option-cases (find t.tid m.status)) [
    | inl e ↦ rw (e, end_rq) (λ c k. k)
    | inr (p, e) ↦
        rw (e, end_rq)
          (elim (Bool-cases (is_committing p.stat)) [
            | inl x ↦ rw x (Grows-modify t.tid (with_stat ended) m.status)
            | inr x ↦ rw x (λ c k. k)
          ])
  ]

  dispatch-Grows :
      (r : Request)
      → (r ≢ begin → t.tid ≢ front_of_empty)
      → Returns KeepsKnown (dispatch front_of_empty r t who now m)
  unfolding dispatch begin_rq abort_rq commit_rq restart_rq
  dispatch-Grows begin n = Grows-insert m.next_tid _ m.status
  dispatch-Grows allocate n =
      Returns-map _ KeepsKnown _ (written-Grows t.block_no t.tid _)
        (allocate_rq-arbitrates m v t now)
  dispatch-Grows release n =
      Returns-map _ KeepsKnown _ (written-Grows t.block_no t.tid _)
        (release_rq-arbitrates m v t now)
  dispatch-Grows read n =
      Returns-map _ KeepsKnown _ (read-Grows t.block_no t.tid _) (read_rq-arbitrates m v t now)
  dispatch-Grows write n =
      Returns-map _ KeepsKnown _ (written-Grows t.block_no t.tid _)
        (write_rq-arbitrates m v t now front_of_empty (n (λ e. cc)))
  dispatch-Grows restart n = note_status-Grows _
  dispatch-Grows abort n = note_status-Grows _
  dispatch-Grows commit n = note_status-Grows _
  dispatch-Grows end n = end_rq-Grows

  pub process_clientrq-Grows :
      IsServed front_of_empty t.request t.tid m
      → Returns KeepsKnown (process_clientrq front_of_empty t who now m)
  unfolding process_clientrq
  process_clientrq-Grows s = elim (Bool-cases (is_begin t.request)) [
    | inl b ↦ rw b (dispatch-Grows t.request s.apart)
    | inr b ↦ rw b (elim (Bool-cases (was_preempted t.tid m)) [
      | inl p ↦ rw p (λ c k. k)
      | inr p ↦ rw p (dispatch-Grows t.request s.apart)
    ])
  ]

-- Preempted, and not gone.
abbrev IsCondemned : ℕ → Monitor → Type 0
IsCondemned c m = IsDoomed c m × (is_known c m.status ≡ true)

module _ {front_of_empty c : ℕ} where
  -- Once a transaction is preempted, every run in which it does not disconnect leaves it so.
  Reaches-IsCondemned :
      {m m' : Monitor}
      → Inv m
      → IsCondemned c m
      → Reaches front_of_empty (λ t. t ≢ c) m m'
      → IsCondemned c m'
  unfolding accept_client
  Reaches-IsCondemned v d here = d
  Reaches-IsCondemned v d (connected {a} fd run) = Reaches-IsCondemned v d run
  Reaches-IsCondemned v d (served {a} t r who now run ok_rq e) =
      let (doomed, known) = Reaches-IsCondemned v d run in
      let inv = Reaches-Inv v run in
      (
        subst (Returns (λ (r : Monitor × Trq). IsDoomed c r.0)) e
            (process_clientrq-IsDoomed front_of_empty c who now t a inv known doomed ok_rq),
        subst (Returns (λ (r : Monitor × Trq). Grows a.status r.0.status)) e
            (process_clientrq-Grows front_of_empty who now t a inv ok_rq) c known,
      )
  Reaches-IsCondemned v d (disconnected {a} fd tid s run may own at) =
      let (doomed, known) = Reaches-IsCondemned v d run in
      let same : find c (forget fd tid a).status ≡ find c a.status =
        (forget-IsForgotten tid a (Reaches-Inv v run) s at fd).others c (λ e. may (sym e)) in
      (λ q e. doomed q (sym same ∙ e), rw (same, is_known) known)

-- The same after a run of requests that fit the state in which they come.
pub condemned_dies :
    (front_of_empty c who now : ℕ) (t : Trq) (m m' : Monitor)
    → Inv m
    → IsDoomed c m
    → is_known c m.status ≡ true
    → Reaches front_of_empty (λ t. t ≢ c) m m'
    → t.tid ≡ c
    → t.request ≢ begin
    → process_clientrq front_of_empty t who now m' ≡ returns (m', answer t die)
condemned_dies front_of_empty c who now t m m' v d k run own n =
    let (doomed, known) = Reaches-IsCondemned v (d, k) run in
    preempted_dies front_of_empty who now t m' (subst (λ c. IsDoomed c m') (sym own) doomed)
      (subst (λ c. is_known c m'.status ≡ true) (sym own) known) n
