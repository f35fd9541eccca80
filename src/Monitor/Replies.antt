-- ===== src/Monitor/Replies.antt =====
-- The two number fields of the replies of src/Monitor.cc.
use system_t.Monitor.Returns.{Returns, Returns-map}
use system_t.Base.{
  ℕ, ◌≡◌, refl, ◌≢◌, inl, inr, Bool, true, false, Bool-cases, Option-cases, if◌then◌else◌,
}
use system_t.Map.{find}
use system_t.Outcome.{Outcome, returns, exits, undefined, running, ◌>>=◌}
use system_t.Trq.{
  Request, Trq, begin, commit, end, read, write, abort, allocate, release, restart, pid_of_tid,
  tid_of_pid,
}
use system_t.Monitor.State.{Status, Monitor, is_committing}
use system_t.Monitor.Locks.{check_sole_reader, can_write}
use system_t.Monitor.Handlers.{
  answer, allocate_rq, read_rq, write_rq, release_rq, note_status, abort_rq, commit_rq, restart_rq,
  end_rq, was_preempted, dispatch, is_begin, process_clientrq,
}
use system_t.Monitor.Invariant.{Inv}
use system_t.Monitor.Grants.{can_read-Granted, can_write-Granted}
use system_t.Monitor.Doom.{is_begin_eq}

-- The reply carries the pid of the request as its tid, and the tid as its pid.
abbrev pub IsSwapped : Trq → Trq → Type 0
IsSwapped t r = (r.tid ≡ tid_of_pid t.pid) × (r.pid ≡ pid_of_tid t.tid)

module _ (t : Trq) where
  lock_rq-IsSwapped :
      (o : Outcome (Bool × Monitor)) (take : Monitor → Monitor) (granted refused : Trq)
      → IsSwapped t granted
      → IsSwapped t refused
      → Returns (λ _. Unit {0}) o
      → Returns
          (λ (r : Monitor × Trq). IsSwapped t r.1)
          (o >>= λ (g, m'). if g then returns (take m', granted) else returns (m', refused))
  lock_rq-IsSwapped (returns (true, m')) take granted refused p q h = p
  lock_rq-IsSwapped (returns (false, m')) take granted refused p q h = q
  lock_rq-IsSwapped exits take granted refused p q h = absurd h
  lock_rq-IsSwapped undefined take granted refused p q h = absurd h
  lock_rq-IsSwapped running take granted refused p q h = absurd h

  note_status-IsSwapped : (s : Status) (m : Monitor) → IsSwapped t (note_status s t m).1
  unfolding note_status answer
  note_status-IsSwapped s m = elim (Option-cases (find t.tid m.status)) [
    | inl e ↦ rw (e, note_status) (refl, refl)
    | inr (p, e) ↦ rw (e, note_status) (refl, refl)
  ]

  end_rq-IsSwapped : (m : Monitor) → IsSwapped t (end_rq t m).1
  unfolding end_rq answer
  end_rq-IsSwapped m = elim (Option-cases (find t.tid m.status)) [
    | inl e ↦ rw (e, end_rq) (refl, refl)
    | inr (p, e) ↦
        rw (e, end_rq)
          (elim (Bool-cases (is_committing p.stat)) [
            | inl c ↦ rw c (refl, refl)
            | inr c ↦ rw c (refl, refl)
          ])
  ]

module _ (front_of_empty who now : ℕ) (t : Trq) (m : Monitor) (v : Inv m) where
  asked_write : Returns (λ _. Unit {0}) (can_write t.tid t.block_no now m)
  asked_write = Returns-map _ _ _ (λ _ _. tt) (can_write-Granted m t.block_no v t.tid now)

  dispatch-IsSwapped :
      (r : Request)
      → r ≢ begin
      → Returns (λ (r : Monitor × Trq). IsSwapped t r.1) (dispatch front_of_empty r t who now m)
  unfolding dispatch allocate_rq read_rq write_rq release_rq answer abort_rq commit_rq restart_rq
  dispatch-IsSwapped begin n = absurd (n refl)
  dispatch-IsSwapped allocate n = lock_rq-IsSwapped t _ _ _ _ (refl, refl) (refl, refl) asked_write
  dispatch-IsSwapped release n = lock_rq-IsSwapped t _ _ _ _ (refl, refl) (refl, refl) asked_write
  dispatch-IsSwapped read n =
      lock_rq-IsSwapped t _ _ _ _ (refl, refl) (refl, refl)
        (Returns-map _ _ _ (λ _ _. tt) (can_read-Granted m t.block_no v t.tid now))
  dispatch-IsSwapped write n =
      elim (Bool-cases (check_sole_reader front_of_empty t.tid t.block_no m)) [
        | inl e ↦ rw e (refl, refl)
        | inr e ↦ rw e (lock_rq-IsSwapped t _ _ _ _ (refl, refl) (refl, refl) asked_write)
      ]
  dispatch-IsSwapped restart n = note_status-IsSwapped t _ m
  dispatch-IsSwapped abort n = note_status-IsSwapped t _ m
  dispatch-IsSwapped commit n = note_status-IsSwapped t _ m
  dispatch-IsSwapped end n = end_rq-IsSwapped t m

  -- Under the invariant every request but BEGIN gets a reply, whatever it says, whose two number
  -- fields are exchanged: the pid of the sender stands in the field of the tid, and the tid, cut to
  -- 32 bits, in that of the pid.
  pub process_clientrq-swaps :
      t.request ≢ begin
      → Returns
          (λ (r : Monitor × Trq). IsSwapped t r.1)
          (process_clientrq front_of_empty t who now m)
  unfolding process_clientrq answer
  process_clientrq-swaps n = elim (Bool-cases (is_begin t.request)) [
    | inl b ↦ absurd (n (is_begin_eq t.request b))
    | inr b ↦ rw b (elim (Bool-cases (was_preempted t.tid m)) [
      | inl p ↦ rw p (refl, refl)
      | inr p ↦ rw p (dispatch-IsSwapped t.request n)
    ])
  ]
