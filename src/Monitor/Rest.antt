-- ===== src/Monitor/Rest.antt =====
-- The list of clients and the next number of src/Monitor.cc through the request handlers.
use system_t.Monitor.Returns.{IfReturns, IfReturns-bind, IfReturns-if}
use system_t.Base.{ℕ, ◌+◌, ◌≤◌, ◌≡◌, ◌≢◌, refl, inl, inr, arith, Bool-cases, Option-cases}
use system_t.Map.{find}
use system_t.Outcome.{Outcome, returns}
use system_t.Trq.{Request, Trq, begin, commit, end, read, write, abort, allocate, release, restart}
use system_t.Monitor.State.{Status, reading, writing, allocated, releasing, Monitor, is_committing}
use system_t.Monitor.Locks.{
  update_status, can_read, can_write, set_writer, check_sole_reader, remove_reader,
}
use system_t.Monitor.Handlers.{
  allocate_rq, read_rq, write_rq, release_rq, note_status, abort_rq, commit_rq, restart_rq, end_rq,
  begin_rq, was_preempted, dispatch, is_begin, process_clientrq,
}
use system_t.Monitor.Frame.{
  SameRest, SameRest-refl, SameRest-trans, Asked, can_read-Asked, can_write-Asked,
  set_writer-SameRest, set_reader-SameRest,
}

abbrev pub Served : Monitor → Monitor × Trq → Type 0
Served m (m', r) = SameRest m m'

updated-SameRest :
    (m a : Monitor) (tid b : ℕ) (s : Status) → SameRest m a → SameRest m (update_status tid b s a)
unfolding update_status
updated-SameRest m a tid b s p = record {
  clients = p.clients;
  next_tid = p.next_tid;
  transactions = p.transactions;
}

module _ (m : Monitor) (t : Trq) where
  -- A block is taken for writing, or the request is refused.
  taken_by :
      (s : Status) (a : Monitor)
      → SameRest m a
      → SameRest m (update_status t.tid t.block_no s (set_writer t.block_no t.tid a))
  taken_by s a p =
      updated-SameRest m _ t.tid t.block_no s
        (SameRest-trans m a _ p (set_writer-SameRest a t.block_no t.tid))

  allocate_rq-Served : (now : ℕ) → IfReturns (Served m) (allocate_rq t now m)
  unfolding allocate_rq
  allocate_rq-Served now =
      IfReturns-bind (Asked m) (Served m) (can_write t.tid t.block_no now m) _
        (can_write-Asked m t.tid t.block_no now)
        (λ (g, a) p. IfReturns-if (Served m) g _ _ (taken_by allocated a p) p)

  release_rq-Served : (now : ℕ) → IfReturns (Served m) (release_rq t now m)
  unfolding release_rq
  release_rq-Served now =
      IfReturns-bind (Asked m) (Served m) (can_write t.tid t.block_no now m) _
        (can_write-Asked m t.tid t.block_no now)
        (λ (g, a) p. IfReturns-if (Served m) g _ _ (taken_by releasing a p) p)

  read_rq-Served : (now : ℕ) → IfReturns (Served m) (read_rq t now m)
  unfolding read_rq
  read_rq-Served now =
      IfReturns-bind (Asked m) (Served m) (can_read t.tid t.block_no now m) _
        (can_read-Asked m t.tid t.block_no now)
        (λ (g, a) p.
          IfReturns-if (Served m) g _ _
            (updated-SameRest m _ t.tid t.block_no reading
              (SameRest-trans m a _ p (set_reader-SameRest a t.block_no t.tid)))
            p)

  write_rq-Served :
      (front_of_empty now : ℕ) → IfReturns (Served m) (write_rq front_of_empty t now m)
  unfolding write_rq remove_reader
  write_rq-Served front_of_empty now =
      elim (Bool-cases (check_sole_reader front_of_empty t.tid t.block_no m)) [
        | inl e ↦ rw e (
            taken_by writing (remove_reader t.block_no t.tid m) (
              unfold remove_reader in
              record { clients = refl; next_tid = refl; transactions = refl }))
        | inr e ↦ rw e (
            IfReturns-bind (Asked m) (Served m) (can_write t.tid t.block_no now m) _
              (can_write-Asked m t.tid t.block_no now)
              (λ (g, a) p. IfReturns-if (Served m) g _ _ (taken_by writing a p) p))
      ]

  note_status-Served : (s : Status) → Served m (note_status s t m)
  unfolding note_status
  note_status-Served s = elim (Option-cases (find t.tid m.status)) [
    | inl e ↦ rw (e, note_status) (SameRest-refl m)
    | inr (p, e) ↦
        rw (e, note_status) (record { clients = refl; next_tid = refl; transactions = refl })
  ]

  end_rq-Served : Served m (end_rq t m)
  unfolding end_rq
  end_rq-Served = elim (Option-cases (find t.tid m.status)) [
    | inl e ↦ rw (e, end_rq) (SameRest-refl m)
    | inr (p, e) ↦
        rw (e, end_rq)
          (elim (Bool-cases (is_committing p.stat)) [
            | inl c ↦ rw c (record { clients = refl; next_tid = refl; transactions = refl })
            | inr c ↦ rw c (SameRest-refl m)
          ])
  ]

-- The same clients, and at most one number given out.
pub record OneMore (m : Monitor) (r : Monitor × Trq) : Type 0 where
  pub clients : r.0.clients ≡ m.clients
  pub next_tid : r.0.next_tid ≤ m.next_tid + 1

IfReturns-map :
    {A : Type 0} (P Q : A → Type 0) (o : Outcome A)
    → ((a : A) → P a → Q a)
    → IfReturns P o
    → IfReturns Q o
IfReturns-map P Q (returns a) k h = k a h
IfReturns-map P Q _ k h = tt

module _ (front_of_empty : ℕ) (t : Trq) (who now : ℕ) (m : Monitor) where
  one_more : (r : Monitor × Trq) → Served m r → OneMore m r
  one_more r p = record { clients = p.clients; next_tid = let e = p.next_tid in omega arith }

  dispatch-OneMore : (r : Request) → IfReturns (OneMore m) (dispatch front_of_empty r t who now m)
  unfolding dispatch begin_rq abort_rq commit_rq restart_rq
  dispatch-OneMore begin = record { clients = refl; next_tid = omega arith }
  dispatch-OneMore allocate = IfReturns-map _ _ _ one_more (allocate_rq-Served m t now)
  dispatch-OneMore read = IfReturns-map _ _ _ one_more (read_rq-Served m t now)
  dispatch-OneMore write = IfReturns-map _ _ _ one_more (write_rq-Served m t front_of_empty now)
  dispatch-OneMore release = IfReturns-map _ _ _ one_more (release_rq-Served m t now)
  dispatch-OneMore restart = one_more _ (note_status-Served m t _)
  dispatch-OneMore abort = one_more _ (note_status-Served m t _)
  dispatch-OneMore commit = one_more _ (note_status-Served m t _)
  dispatch-OneMore end = one_more _ (end_rq-Served m t)

  dispatch-Served :
      (r : Request) → r ≢ begin → IfReturns (Served m) (dispatch front_of_empty r t who now m)
  unfolding dispatch abort_rq commit_rq restart_rq
  dispatch-Served begin n = absurd (n refl)
  dispatch-Served allocate n = allocate_rq-Served m t now
  dispatch-Served read n = read_rq-Served m t now
  dispatch-Served write n = write_rq-Served m t front_of_empty now
  dispatch-Served release n = release_rq-Served m t now
  dispatch-Served restart n = note_status-Served m t _
  dispatch-Served abort n = note_status-Served m t _
  dispatch-Served commit n = note_status-Served m t _
  dispatch-Served end n = end_rq-Served m t

  -- No request but BEGIN gives out a number or changes the transaction of a client.
  pub process_clientrq-Served :
      t.request ≢ begin → IfReturns (Served m) (process_clientrq front_of_empty t who now m)
  unfolding process_clientrq
  process_clientrq-Served n =
      IfReturns-if (Served m) (is_begin t.request) _ _ (dispatch-Served t.request n) (
        IfReturns-if (Served m) (was_preempted t.tid m) _ _ (SameRest-refl m)
          (dispatch-Served t.request n))

  pub process_clientrq-OneMore : IfReturns (OneMore m) (process_clientrq front_of_empty t who now m)
  unfolding process_clientrq
  process_clientrq-OneMore =
      IfReturns-if (OneMore m) (is_begin t.request) _ _ (dispatch-OneMore t.request) (
        IfReturns-if (OneMore m) (was_preempted t.tid m) _ _ (one_more _ (SameRest-refl m))
          (dispatch-OneMore t.request))
