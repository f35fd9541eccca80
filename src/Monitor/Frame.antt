-- ===== src/Monitor/Frame.antt =====
-- What the lock table of src/Monitor.cc has no part in: the list of clients, their transactions and the next number.
use system_t.Monitor.Returns.{IfReturns, IfReturns-bind, IfReturns-if, IfReturns-trivial}
use system_t.Base.{
  ℕ, ◌≡◌, refl, ◌∙◌, inl, inr, Bool, true, false, List, [], ◌∷◌, ltb, ◌==◌, Option-cases,
  List-cases,
}
use system_t.Map.{find}
use system_t.Outcome.{returns}
use system_t.Monitor.State.{preempted, Monitor, is_committing, out_of_time}
use system_t.Monitor.Locks.{
  update_status, preempt_writer, contest_writer, can_read, has_blocker, preempt_readers,
  contest_readers, can_write, set_writer, set_reader,
}

pub record SameRest (m m' : Monitor) : Type 0 where
  pub clients : m'.clients ≡ m.clients
  pub next_tid : m'.next_tid ≡ m.next_tid
  pub transactions : m'.transactions ≡ m.transactions

pub SameRest-refl : (m : Monitor) → SameRest m m
SameRest-refl m = record { clients = refl; next_tid = refl; transactions = refl }

pub SameRest-trans : (a b c : Monitor) → SameRest a b → SameRest b c → SameRest a c
SameRest-trans a b c p q = record {
  clients = q.clients ∙ p.clients;
  next_tid = q.next_tid ∙ p.next_tid;
  transactions = q.transactions ∙ p.transactions;
}

abbrev pub Asked : Monitor → Bool × Monitor → Type 0
Asked m (granted, m') = SameRest m m'

module _ (m : Monitor) where
  refused : IfReturns (Asked m) (returns (false, m))
  refused = SameRest-refl m

  free : IfReturns (Asked m) (returns (true, m))
  free = SameRest-refl m

  contest_writer-Asked : (w tid b now : ℕ) → IfReturns (Asked m) (contest_writer w tid b now m)
  unfolding contest_writer preempt_writer
  contest_writer-Asked w tid b now = elim (Option-cases (find w m.status)) [
    | inl e ↦ rw (e, contest_writer) tt
    | inr (q, e) ↦
        let taken : SameRest m (preempt_writer w b m) =
          unfold preempt_writer in
          record { clients = refl; next_tid = refl; transactions = refl } in
        rw (e, contest_writer)
          (IfReturns-if (Asked m) (is_committing q.stat) _ _ refused (
            IfReturns-if (Asked m) (ltb tid w) _ _ taken
              (IfReturns-if (Asked m) (out_of_time now q) _ _ taken refused)))
  ]

  pub can_read-Asked : (tid b now : ℕ) → IfReturns (Asked m) (can_read tid b now m)
  unfolding can_read
  can_read-Asked tid b now = elim (Option-cases (find b m.blockmap)) [
    | inl e ↦ rw (e, can_read) free
    | inr (h, e) ↦
        rw (e, can_read)
          (IfReturns-if (Asked m) (h.writer == 0) _ _ free
            (contest_writer-Asked h.writer tid b now))
  ]

preempt_readers-SameRest : (rs : List ℕ) (m : Monitor) → SameRest m (preempt_readers rs m)
unfolding preempt_readers update_status
preempt_readers-SameRest [] m = SameRest-refl m
preempt_readers-SameRest (r ∷ rs) m =
    let rest = preempt_readers-SameRest rs (update_status r 0 preempted m) in
    record { clients = rest.clients; next_tid = rest.next_tid; transactions = rest.transactions }

module _ (m : Monitor) where
  contest_readers-Asked :
      (rs : List ℕ) (tid b now : ℕ) → IfReturns (Asked m) (contest_readers rs tid b now m)
  unfolding contest_readers
  contest_readers-Asked rs tid b now =
      IfReturns-bind (λ f. Unit) (Asked m) (has_blocker tid now m.status rs) _ (IfReturns-trivial _)
        (λ found _. IfReturns-if (Asked m) found _ _ (refused m) (
          let rest = preempt_readers-SameRest rs m in
          record {
            clients = rest.clients;
            next_tid = rest.next_tid;
            transactions = rest.transactions;
          }))

  pub can_write-Asked : (tid b now : ℕ) → IfReturns (Asked m) (can_write tid b now m)
  unfolding can_write
  can_write-Asked tid b now = elim (Option-cases (find b m.blockmap)) [
    | inl e ↦ rw (e, can_write) (free m)
    | inr (h, e) ↦
        rw (e, can_write)
          (IfReturns-if (Asked m) (h.writer == 0) _ _
            (elim (List-cases h.readers) [
              | inl e' ↦ rw e' (free m)
              | inr (r, rs, e') ↦ rw e' (contest_readers-Asked (r ∷ rs) tid b now)
            ])
            (contest_writer-Asked m h.writer tid b now))
  ]

  pub set_writer-SameRest : (b tid : ℕ) → SameRest m (set_writer b tid m)
  unfolding set_writer
  set_writer-SameRest b tid = elim (Option-cases (find b m.blockmap)) [
    | inl e ↦ rw (e, set_writer) (record { clients = refl; next_tid = refl; transactions = refl })
    | inr (h, e) ↦
        rw (e, set_writer) (record { clients = refl; next_tid = refl; transactions = refl })
  ]

  pub set_reader-SameRest : (b tid : ℕ) → SameRest m (set_reader b tid m)
  unfolding set_reader
  set_reader-SameRest b tid = elim (Option-cases (find b m.blockmap)) [
    | inl e ↦ rw (e, set_reader) (record { clients = refl; next_tid = refl; transactions = refl })
    | inr (h, e) ↦
        rw (e, set_reader) (record { clients = refl; next_tid = refl; transactions = refl })
  ]
