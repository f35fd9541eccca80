-- ===== src/Monitor/Safety.antt =====
-- The invariant and the request handlers of src/Monitor.cc.
use system_t.Monitor.Keeps.{
  KeepsInv, lock_rq-Inv, check_sole_reader-cases, take_write-Inv, take_read-Inv,
  remove_reader-Granted,
}
use system_t.Base.{ℕ, ◌+◌, ◌<◌, ◌≡◌, ◌≢◌, inl, inr, true, arith, Bool-cases, Option-cases, ◌%◌}
use system_t.Config.{trid_mod}
use system_t.Map.{Map, find, insert, find-insert}
use system_t.Trq.{Request, Trq, begin, commit, end, read, write, abort, allocate, release, restart}
use system_t.Monitor.State.{Status, Monitor, is_committing}
use system_t.Monitor.Locks.{check_sole_reader}
use system_t.Monitor.Handlers.{
  allocate_rq, read_rq, write_rq, release_rq, note_status, abort_rq, commit_rq, restart_rq, end_rq,
  begin_rq, was_preempted, dispatch, is_begin, process_clientrq,
}
use system_t.Monitor.Invariant.{
  is_known, ClientsOk, Inv, Each-insert, is_known-insert, Grows-insert, Each-mono, Inv-status,
}
use system_t.Monitor.Grants.{HasNoWriter, HasNoHolder, can_read-Granted, can_write-Granted}

module _ (rq : Trq) (now : ℕ) (m : Monitor) (v : Inv m)
    (known : is_known rq.tid m.status ≡ true) where
  pub allocate_rq-Inv : KeepsInv (allocate_rq rq now m)
  unfolding allocate_rq
  allocate_rq-Inv =
      lock_rq-Inv HasNoHolder m rq.block_no _ _ _ _ (can_write-Granted m rq.block_no v rq.tid now)
        (λ m' g. take_write-Inv rq.tid rq.block_no _ m m' known g)

  pub release_rq-Inv : KeepsInv (release_rq rq now m)
  unfolding release_rq
  release_rq-Inv =
      lock_rq-Inv HasNoHolder m rq.block_no _ _ _ _ (can_write-Granted m rq.block_no v rq.tid now)
        (λ m' g. take_write-Inv rq.tid rq.block_no _ m m' known g)

  pub read_rq-Inv : KeepsInv (read_rq rq now m)
  unfolding read_rq
  read_rq-Inv =
      lock_rq-Inv HasNoWriter m rq.block_no _ _ _ _ (can_read-Granted m rq.block_no v rq.tid now)
        (λ m' g. take_read-Inv rq.tid rq.block_no _ m m' known g)

  pub write_rq-Inv :
      (front_of_empty : ℕ) → rq.tid ≢ front_of_empty → KeepsInv (write_rq front_of_empty rq now m)
  unfolding write_rq
  write_rq-Inv front_of_empty apart =
      elim (Bool-cases (check_sole_reader front_of_empty rq.tid rq.block_no m)) [
        | inl e ↦
            let (h, at, sole) =
              check_sole_reader-cases front_of_empty rq.tid rq.block_no m apart e in
            rw e (
              take_write-Inv rq.tid rq.block_no _ m _ known
                (remove_reader-Granted rq.tid rq.block_no m v h at sole))
        | inr e ↦ rw e (
            lock_rq-Inv HasNoHolder m rq.block_no _ _ _ _
              (can_write-Granted m rq.block_no v rq.tid now)
              (λ m' g. take_write-Inv rq.tid rq.block_no _ m m' known g))
      ]

note_status-Inv : (s : Status) (rq : Trq) (m : Monitor) → Inv m → Inv (note_status s rq m).0
unfolding note_status
note_status-Inv s rq m v = elim (Option-cases (find rq.tid m.status)) [
  | inl e ↦ rw (e, note_status) v
  | inr (p, e) ↦ rw (e, note_status) (Inv-status m rq.tid _ v)
]

end_rq-Inv : (rq : Trq) (m : Monitor) → Inv m → Inv (end_rq rq m).0
unfolding end_rq
end_rq-Inv rq m v = elim (Option-cases (find rq.tid m.status)) [
  | inl e ↦ rw (e, end_rq) v
  | inr (p, e) ↦
      rw (e, end_rq)
        (elim (Bool-cases (is_committing p.stat)) [
          | inl c ↦ rw c (Inv-status m rq.tid _ v)
          | inr c ↦ rw c v
        ])
]

-- A client that begins anew gets a number that no other client has.
begin_rq-ClientsOk :
    (who next : ℕ) (clients : Map ℕ)
    → ClientsOk next clients
    → ClientsOk (next + 1) (insert who next clients)
begin_rq-ClientsOk who next clients c = record {
  issued =
      Each-insert _ who next clients (omega arith)
        (λ k t e. let old = c.issued k t e in omega arith);
  distinct = λ f g t e d. ground (
    arith,
    find-insert who f next clients,
    find-insert who g next clients,
    c.distinct f g t,
    c.issued f next,
    c.issued g next,
  );
}

pub begin_rq-Inv :
    (t : Trq) (who now : ℕ) (m : Monitor)
    → Inv m
    → m.next_tid + 1 < trid_mod
    → Inv (begin_rq t who now m).0
unfolding begin_rq
begin_rq-Inv t who now m v room = rw next (record {
  holders = Each-mono m.status _ (Grows-insert m.next_tid _ m.status) m.blockmap v.holders;
  ids = λ j k. elim (is_known-insert j m.next_tid _ m.status k) [
    | inl e ↦ rw e (v.started, omega arith)
    | inr old ↦ let range = v.ids j old in (range.0, omega arith)
  ];
  sessions = begin_rq-ClientsOk who m.next_tid m.transactions v.sessions;
  started = omega arith;
})
  where
    next : (m.next_tid + 1) % trid_mod ≡ m.next_tid + 1
    next = omega arith

-- What the monitor may expect of a request: only BEGIN comes without the number of a known
-- transaction.
pub record IsServed (front_of_empty : ℕ) (r : Request) (tid : ℕ) (m : Monitor) : Type 0 where
  pub room : m.next_tid + 1 < trid_mod
  pub known : r ≢ begin → is_known tid m.status ≡ true
  pub apart : r ≢ begin → tid ≢ front_of_empty

dispatch-Inv :
    (front_of_empty : ℕ) (r : Request) (t : Trq) (who now : ℕ) (m : Monitor)
    → Inv m
    → IsServed front_of_empty r t.tid m
    → KeepsInv (dispatch front_of_empty r t who now m)
unfolding dispatch abort_rq commit_rq restart_rq
dispatch-Inv front_of_empty begin t who now m v s = begin_rq-Inv t who now m v s.room
dispatch-Inv front_of_empty allocate t who now m v s = allocate_rq-Inv t now m v (s.known (λ e. cc))
dispatch-Inv front_of_empty read t who now m v s = read_rq-Inv t now m v (s.known (λ e. cc))
dispatch-Inv front_of_empty write t who now m v s =
    write_rq-Inv t now m v (s.known (λ e. cc)) front_of_empty (s.apart (λ e. cc))
dispatch-Inv front_of_empty release t who now m v s = release_rq-Inv t now m v (s.known (λ e. cc))
dispatch-Inv front_of_empty restart t who now m v s = note_status-Inv _ t m v
dispatch-Inv front_of_empty abort t who now m v s = note_status-Inv _ t m v
dispatch-Inv front_of_empty commit t who now m v s = note_status-Inv _ t m v
dispatch-Inv front_of_empty end t who now m v s = end_rq-Inv t m v

-- Under the invariant every request of a transaction that the monitor knows, and every BEGIN, is
-- answered: process_clientrq returns, and keeps the invariant. The conditions are that the numbers
-- last, and that the number of a sender, but for BEGIN, is not the one that readers.front() reads from
-- an empty list.
pub process_clientrq-Inv :
    (front_of_empty : ℕ) (t : Trq) (who now : ℕ) (m : Monitor)
    → Inv m
    → IsServed front_of_empty t.request t.tid m
    → KeepsInv (process_clientrq front_of_empty t who now m)
unfolding process_clientrq
process_clientrq-Inv front_of_empty t who now m v s = elim (Bool-cases (is_begin t.request)) [
  | inl b ↦ rw b (dispatch-Inv front_of_empty t.request t who now m v s)
  | inr b ↦ rw b (elim (Bool-cases (was_preempted t.tid m)) [
    | inl p ↦ rw p v
    | inr p ↦ rw p (dispatch-Inv front_of_empty t.request t who now m v s)
  ])
]
