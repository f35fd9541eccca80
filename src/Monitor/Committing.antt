-- ===== src/Monitor/Committing.antt =====
-- Runs of the monitor of src/Monitor.cc while a transaction commits.
use mathlib.Core.Path.{subst}
use system_t.Monitor.Returns.{Returns, Returns-map, both}
use system_t.Base.{ℕ, ◌<◌, ◌≡◌, refl, sym, ◌∙◌, ◌≢◌, inl, inr, false, some, arith, Bool-cases, ◌==◌}
use system_t.Map.{find, modify}
use system_t.Outcome.{returns}
use system_t.Trq.{
  Request, Trq, ok, begin, commit, end, read, write, abort, allocate, release, restart,
}
use system_t.Monitor.State.{Tstat, Monitor, with_stat, ended, committing}
use system_t.Monitor.Handlers.{
  dispatch, process_clientrq, is_begin, was_preempted, read_rq, abort_rq, commit_rq, restart_rq,
  end_rq, answer,
}
use system_t.Monitor.Server.{accept_client, forget}
use system_t.Monitor.Invariant.{Inv, is_known}
use system_t.Monitor.Safety.{IsServed, process_clientrq-Inv}
use system_t.Monitor.Policy.Requests.{
  allocate_rq-arbitrates, release_rq-arbitrates, read_rq-arbitrates, write_rq-arbitrates,
}
use system_t.Monitor.Readers.{ReadsNone, read_rq-ReadsNone, forget-ReadsNone}
use system_t.Monitor.Runs.{accept_client-Inv}
use system_t.Monitor.Flush.{without, forget-IsForgotten, forget-Inv}
use system_t.Monitor.Shield.{
  Writes, IsShielded, as_before, written-IsShielded, read-IsShielded, note_status-IsShielded,
  end_rq-IsShielded, begin_rq-IsShielded,
}

module _ (c : ℕ) (own : ℕ → Type 0) (front_of_empty : ℕ) where
  abbrev Shields : Monitor × Trq → Type 0
  Shields r = IsShielded c own r.0

  -- A request of another transaction.
  module _ (m : Monitor) (v : Inv m) (k : IsShielded c own m) (t : Trq) (who now : ℕ)
      (other : c ≢ t.tid) where
    in_range : (0 < c) × (c < m.next_tid)
    in_range = v.ids c (rw (k.status, is_known) refl)

    dispatch-IsShielded :
        (r : Request)
        → IsServed front_of_empty r t.tid m
        → Returns Shields (dispatch front_of_empty r t who now m)
    unfolding dispatch abort_rq commit_rq restart_rq
    dispatch-IsShielded begin s = begin_rq-IsShielded c own t who now m in_range.1 k
    dispatch-IsShielded allocate s =
        Returns-map _ Shields _
          (written-IsShielded c own m v k in_range.0 t.block_no t.tid now other _)
          (allocate_rq-arbitrates m v t now)
    dispatch-IsShielded release s =
        Returns-map _ Shields _
          (written-IsShielded c own m v k in_range.0 t.block_no t.tid now other _)
          (release_rq-arbitrates m v t now)
    dispatch-IsShielded read s =
        both _ (λ r. ReadsNone c r.0.blockmap) Shields (read_rq t now m)
          (λ r taken absent.
            read-IsShielded c own m v k in_range.0 t.block_no t.tid now other _ r absent taken)
          (read_rq-arbitrates m v t now) (read_rq-ReadsNone c t now m other k.no_read)
    dispatch-IsShielded write s =
        Returns-map _ Shields _
          (written-IsShielded c own m v k in_range.0 t.block_no t.tid now other _)
          (write_rq-arbitrates m v t now front_of_empty (s.apart (λ e. cc)))
    dispatch-IsShielded restart s = note_status-IsShielded c own _ t m other k
    dispatch-IsShielded abort s = note_status-IsShielded c own _ t m other k
    dispatch-IsShielded commit s = note_status-IsShielded c own _ t m other k
    dispatch-IsShielded end s = end_rq-IsShielded c own t m other k

    process_clientrq-IsShielded :
        IsServed front_of_empty t.request t.tid m
        → Returns Shields (process_clientrq front_of_empty t who now m)
    unfolding process_clientrq
    process_clientrq-IsShielded s = elim (Bool-cases (is_begin t.request)) [
      | inl b ↦ rw b (dispatch-IsShielded t.request s)
      | inr b ↦ rw b (elim (Bool-cases (was_preempted t.tid m)) [
        | inl p ↦ rw p k
        | inr p ↦ rw p (dispatch-IsShielded t.request s)
      ])
    ]

  accept_client-IsShielded :
      (fd : ℕ) (m : Monitor) → IsShielded c own m → IsShielded c own (accept_client fd m)
  unfolding accept_client
  accept_client-IsShielded fd m k = as_before c own m _ refl refl k

  forget-IsShielded :
      (fd tid : ℕ) (s : Tstat) (m : Monitor)
      → Inv m
      → tid ≢ c
      → find tid m.status ≡ some s
      → IsShielded c own m
      → IsShielded c own (forget fd tid m)
  forget-IsShielded fd tid s m v n at k =
      let gone = forget-IsForgotten tid m v s at fd in
      record {
        tstat = k.tstat;
        status = gone.others c (λ e. n (sym e)) ∙ k.status;
        commits = k.commits;
        no_read = forget-ReadsNone c fd tid m k.no_read;
        writes = λ b mine.
            let (h, held, w) = k.writes b mine in
            (
              without tid h,
              gone.locks b h held,
              let z : (h.writer == tid) ≡ false = ground arith in rw z w,
            );
      }

-- Steps of the monitor in none of which the transaction `c` sends a request or is disconnected.
pub data Others (front_of_empty c : ℕ) (m : Monitor) : Monitor → Type 0 where
  here : Others front_of_empty c m m
  connected :
      {a : Monitor} (fd : ℕ)
      → Others front_of_empty c m a
      → Others front_of_empty c m (accept_client fd a)
  served :
      {a b : Monitor} (t r : Trq) (who now : ℕ)
      → Others front_of_empty c m a
      → c ≢ t.tid
      → IsServed front_of_empty t.request t.tid a
      → process_clientrq front_of_empty t who now a ≡ returns (b, r)
      → Others front_of_empty c m b
  disconnected :
      {a : Monitor} (fd tid : ℕ) (s : Tstat)
      → Others front_of_empty c m a
      → tid ≢ c
      → find fd a.transactions ≡ some tid
      → find tid a.status ≡ some s
      → Others front_of_empty c m (forget fd tid a)

module _ {front_of_empty c : ℕ} {own : ℕ → Type 0} {m : Monitor} (v : Inv m)
    (k : IsShielded c own m) where
  others_keep : {m' : Monitor} → Others front_of_empty c m m' → Inv m' × IsShielded c own m'
  others_keep here = (v, k)
  others_keep (connected {a} fd run) =
      let (w, l) = others_keep run in
      (accept_client-Inv fd a w, accept_client-IsShielded c own front_of_empty fd a l)
  others_keep (served {a} t r who now run other ok_rq e) =
      let (w, l) = others_keep run in
      (
        subst (Returns (λ (q : Monitor × Trq). Inv q.0)) e
            (process_clientrq-Inv front_of_empty t who now a w ok_rq),
        subst (Returns (λ (q : Monitor × Trq). IsShielded c own q.0)) e
            (process_clientrq-IsShielded c own front_of_empty a w l t who now other ok_rq),
      )
  others_keep (disconnected {a} fd tid s run other held at) =
      let (w, l) = others_keep run in
      (forget-Inv tid a w s at fd, forget-IsShielded c own front_of_empty fd tid s a w other at l)

-- END of a transaction that is committing.
pub end_rq-granted :
    (front_of_empty : ℕ) (t : Trq) (who now : ℕ) (m : Monitor) (s : Tstat)
    → find t.tid m.status ≡ some s
    → s.stat ≡ committing
    → t.request ≡ end
    → process_clientrq front_of_empty t who now m
      ≡ returns (record m { status = modify t.tid (with_stat ended) m.status }, answer t ok)
unfolding process_clientrq dispatch was_preempted end_rq
end_rq-granted front_of_empty t who now m s at commits ends =
    rw (ends, at, was_preempted, end_rq) (rw commits refl)

-- A transaction that is committing, reads no block and writes those of its own keeps every one of
-- them while the monitor serves whichever clients connect, send requests in a state that fits them
-- and disconnect, as long as none of these is itself; and the END that it sends then is granted,
-- the monitor changing its status and nothing else.
pub committing_ends :
    (front_of_empty c : ℕ) (own : ℕ → Type 0) (m m' : Monitor) (t : Trq) (who now : ℕ)
    → Inv m
    → IsShielded c own m
    → Others front_of_empty c m m'
    → t.tid ≡ c
    → t.request ≡ end
    → ((b : ℕ) → own b → Writes c b m')
      × (process_clientrq front_of_empty t who now m'
          ≡ returns (record m' { status = modify t.tid (with_stat ended) m'.status }, answer t ok))
committing_ends front_of_empty c own m m' t who now v k run named ends =
    let (w, l) = others_keep v k run in
    (
      l.writes,
      end_rq-granted front_of_empty t who now m' l.tstat (rw named l.status) l.commits ends,
    )
