-- ===== src/Monitor/Faults.antt =====
-- Preemption of a committing reader and rollback in src/Monitor.cc, in special cases.
use system_t.Monitor.Returns.{Returns, Returns-map}
use system_t.Log.Scan.{scan}
use mathlib.Core.Path.{subst, ap}
use mathlib.Core.List.{reverse}
use system_t.Base.{ℕ, ◌≡◌, refl, sym, ◌∙◌, ◌≢◌, inl, inr, true, some, [], ◌∷◌, arith, none}
use system_t.Map.{find, modify, find-modify}
use system_t.Outcome.{returns, running}
use system_t.Log.Rollback.{rollback_hangs}
use system_t.Monitor.Server.{Server, client_disconnect}
use system_t.Monitor.Doom.{preempted_dies}
use system_t.Trq.{Trq, begin, end, ok, die}
use system_t.Monitor.State.{committing, with_stat, Tstat, Monitor}
use system_t.Monitor.Handlers.{answer, commit_rq, note_status, write_rq, process_clientrq}
use system_t.Monitor.Invariant.{Inv, is_known}
use system_t.Monitor.Policy.Evict.{Member, IsWriter, IsDoomed}
use system_t.Monitor.Policy.Verdict.{Refusal}
use system_t.Monitor.Policy.Requests.{write_rq-arbitrates}

-- A block with one reader, which is committing, refuses nobody.
no_Refusal :
    (c b tid now : ℕ) (m : Monitor) (q : Tstat)
    → find b m.blockmap ≡ some (record { readers = c ∷ []; writer = 0 })
    → find c m.status ≡ some q
    → q.stat ≡ committing
    → ¬ Refusal m b tid now
no_Refusal c b tid now m q at st busy w = elim w.reason [
  | inl writes ↦ no_writer writes.0
  | inr stays ↦ elim w.holds [
    | inl writes ↦ no_writer writes
    | inr reads ↦ elim (subst (Member w.who) (ap (λ h. h.readers) who_is) reads) [
      | inl same ↦
          stays.0 (let found : find c m.status ≡ some w.tstat = rw same w.status in ground arith)
      | inr none_left ↦ none_left
    ]
  ]
]
  where
    who_is : w.holders ≡ record { readers = c ∷ []; writer = 0 }
    who_is = ground (arith, w.at)

    no_writer : ¬ IsWriter w.who w.holders
    no_writer writes =
        let free : w.holders.writer ≡ 0 = ap (λ h. h.writer) who_is in
        let (pos, is_who) = writes in omega arith

committing_reader_loses :
    (front_of_empty c now : ℕ) (rq : Trq) (m : Monitor) (q : Tstat)
    → Inv m
    → rq.tid ≢ front_of_empty
    → rq.tid ≢ c
    → find rq.block_no m.blockmap ≡ some (record { readers = c ∷ []; writer = 0 })
    → find c m.status ≡ some q
    → q.stat ≡ committing
    → Returns
        (λ r. (r.1.reply ≡ ok) × IsDoomed c r.0 × (is_known c r.0.status ≡ true))
        (write_rq front_of_empty rq now m)
committing_reader_loses front_of_empty c now rq m q v apart other at st busy =
    Returns-map _ _ (write_rq front_of_empty rq now m)
      (λ r. elim [
        | inl taken ↦ (
          taken.0,
          taken.2.doomed c (λ e. other (rw e refl)) (_, at, inr (inl refl)),
          taken.2.known c ∙ ground arith,
        )
        | inr refused ↦ absurd (no_Refusal c rq.block_no rq.tid now m q at st busy refused.2)
      ])
      (write_rq-arbitrates m v rq now front_of_empty apart)

-- Under the invariant, a transaction `c` reads a block alone and is committing. A request of another
-- one to write that block is granted all the same, and the END of `c` is then answered by DIE. The
-- condition is that the number of the sender of the first request is not the one that readers.front()
-- reads from an empty list.
pub committing_reader_dies :
    (front_of_empty c who now later : ℕ) (rq t : Trq) (m : Monitor) (q : Tstat)
    → Inv m
    → rq.tid ≢ front_of_empty
    → rq.tid ≢ c
    → find rq.block_no m.blockmap ≡ some (record { readers = c ∷ []; writer = 0 })
    → find c m.status ≡ some q
    → q.stat ≡ committing
    → t.tid ≡ c
    → t.request ≡ end
    → Returns
        (λ r.
          (r.1.reply ≡ ok)
          × (process_clientrq front_of_empty t who later r.0 ≡ returns (r.0, answer t die)))
        (write_rq front_of_empty rq now m)
committing_reader_dies front_of_empty c who now later rq t m q v apart other at st busy own asks =
    Returns-map _ _ (write_rq front_of_empty rq now m)
      (λ r lost. (
        lost.0,
        preempted_dies front_of_empty who later t r.0 (subst (λ i. IsDoomed i r.0) (sym own) lost.1)
            (subst (λ i. is_known i r.0.status ≡ true) (sym own) lost.2)
            (λ e. let both : end ≡ begin = sym asks ∙ e in cc),
      ))
      (committing_reader_loses front_of_empty c now rq m q v apart other at st busy)

disconnect_hangs :
    (fuel fd tid : ℕ) (s : Server) (q : Tstat)
    → find fd s.monitor.transactions ≡ some tid
    → find tid s.monitor.status ≡ some q
    → q.stat ≡ committing
    → s.disk.log ≢ []
    → scan tid (reverse s.disk.log) ≡ none
    → client_disconnect fuel fd s ≡ running
unfolding client_disconnect
disconnect_hangs fuel fd tid s q owns at busy some_log nothing =
    rw (owns, client_disconnect)
      (rw at (rw busy (rw (rollback_hangs tid fuel s.logger s.disk some_log nothing) refl)))

-- A transaction is granted COMMIT, and its client goes away before it has written BEGIN to the log
-- (which is not empty and holds neither BEGIN nor END of it): client_disconnect does not return,
-- however many rounds the loop of rollback is given.
pub commit_then_gone_hangs :
    (fuel fd : ℕ) (rq : Trq) (s : Server) (q : Tstat)
    → find fd s.monitor.transactions ≡ some rq.tid
    → find rq.tid s.monitor.status ≡ some q
    → s.disk.log ≢ []
    → scan rq.tid (reverse s.disk.log) ≡ none
    → ((commit_rq rq s.monitor).1.reply ≡ ok)
      × (client_disconnect fuel fd (record s { monitor = (commit_rq rq s.monitor).0 }) ≡ running)
unfolding commit_rq answer
commit_then_gone_hangs fuel fd rq s q owns at some_log nothing = (
  ap (λ r. r.1.reply) granted,
  subst (λ m. client_disconnect fuel fd (record s { monitor = m }) ≡ running)
      (sym (ap (λ r. r.0) granted))
      (disconnect_hangs fuel fd rq.tid _ (record q { stat = committing }) owns committing_now refl
        some_log nothing),
)
  where
    granted : commit_rq rq s.monitor ≡ (
      record (s.monitor) { status = modify rq.tid (with_stat committing) s.monitor.status },
      answer rq ok,
    )
    granted = rw (at, note_status) refl

    committing_now :
        find rq.tid (modify rq.tid (with_stat committing) s.monitor.status)
        ≡ some (record q { stat = committing })
    committing_now =
        ground (arith, find-modify rq.tid rq.tid (with_stat committing) s.monitor.status)
