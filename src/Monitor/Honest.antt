-- ===== src/Monitor/Honest.antt =====
-- Runs of the monitor of src/Monitor.cc in which every client gives the number of its own transaction.
use mathlib.Core.Path.{subst}
use system_t.Base.{
  ℕ, suc, ◌+◌, ◌<◌, ◌≤◌, ◌≡◌, ◌≢◌, inl, inr, true, some, arith, ◌==◌, Bool-cases, Option-cases,
}
use system_t.Config.{trid_mod}
use system_t.Map.{find, insert, find-insert}
use system_t.Outcome.{returns}
use system_t.Trq.{Trq, begin, die}
use system_t.Monitor.State.{Monitor, Tstat, init, begun}
use system_t.Monitor.Handlers.{process_clientrq, answer, dispatch, begin_rq}
use system_t.Monitor.Server.{accept_client, forget}
use system_t.Monitor.Returns.{Returns, IfReturns}
use system_t.Monitor.Invariant.{Inv, Each, Grows, Each-insert, Grows-insert, is_known, init-Inv}
use system_t.Monitor.Policy.Evict.{IsDoomed}
use system_t.Monitor.Safety.{IsServed, process_clientrq-Inv}
use system_t.Monitor.Flush.{forget-IsForgotten, forget-Inv, find-forget, next_tid-forget}
use system_t.Monitor.Rest.{Served, OneMore, process_clientrq-OneMore, process_clientrq-Served}
use system_t.Monitor.Runs.{
  Reaches, here, connected, served, disconnected, process_clientrq-Grows, condemned_dies,
}

-- Connections, requests and disconnections from the state `m` on, with the number of BEGINs. A request
-- other than BEGIN comes with the number that BEGIN has given to its sender last; `may_leave` tells
-- which transactions may disconnect on the way.
pub data HonestRun (front_of_empty : ℕ) (may_leave : ℕ → Type 0) (m : Monitor)
    : ℕ → Monitor → Type 0 where
  at_start : HonestRun front_of_empty may_leave m 0 m
  connects :
      {n : ℕ} {a : Monitor} (fd : ℕ)
      → HonestRun front_of_empty may_leave m n a
      → HonestRun front_of_empty may_leave m n (accept_client fd a)
  begins :
      {n : ℕ} {a b : Monitor} (t r : Trq) (who now : ℕ)
      → HonestRun front_of_empty may_leave m n a
      → t.request ≡ begin
      → process_clientrq front_of_empty t who now a ≡ returns (b, r)
      → HonestRun front_of_empty may_leave m (suc n) b
  asks :
      {n : ℕ} {a b : Monitor} (t r : Trq) (who now : ℕ)
      → HonestRun front_of_empty may_leave m n a
      → t.request ≢ begin
      → find who a.transactions ≡ some t.tid
      → process_clientrq front_of_empty t who now a ≡ returns (b, r)
      → HonestRun front_of_empty may_leave m n b
  leaves :
      {n : ℕ} {a : Monitor} (fd tid : ℕ)
      → HonestRun front_of_empty may_leave m n a
      → may_leave tid
      → find fd a.transactions ≡ some tid
      → HonestRun front_of_empty may_leave m n (forget fd tid a)

-- The invariant, and the transaction of every client has a status.
pub record IsSound (m : Monitor) : Type 0 where
  pub inv : Inv m
  pub sessions : Each (λ t. is_known t m.status ≡ true) m.transactions

-- What readers.front() reads from an empty list is no number of a transaction.
abbrev pub IsNoNumber : ℕ → Type 0
IsNoNumber front_of_empty = (t : ℕ) → 0 < t → t < trid_mod → t ≢ front_of_empty

pub init-IsSound : IsSound init
unfolding init find
init-IsSound = record { inv = init-Inv; sessions = λ fd t e. absurd (cc) }

known_status :
    (t : ℕ) (m : Monitor) → is_known t m.status ≡ true → (s : Tstat) × (find t m.status ≡ some s)
known_status t m k = elim (Option-cases (find t m.status)) [
  | inl e ↦ absurd (ground arith)
  | inr known ↦ known
]

module _ (a : Monitor) (ok : IsSound a) where
  accept_client-IsSound : (fd : ℕ) → IsSound (accept_client fd a)
  unfolding accept_client
  accept_client-IsSound fd = record {
    inv = record {
      holders = ok.inv.holders;
      ids = ok.inv.ids;
      sessions = ok.inv.sessions;
      started = ok.inv.started;
    };
    sessions = ok.sessions;
  }

  forget-IsSound : (fd tid : ℕ) → find fd a.transactions ≡ some tid → IsSound (forget fd tid a)
  forget-IsSound fd tid own =
      let (s, at) = known_status tid a (ok.sessions fd tid own) in
      record {
        inv = forget-Inv tid a ok.inv s at fd;
        sessions = λ g t e. elim (Bool-cases (fd == g)) [
          | inl q ↦ absurd (let f = find-forget tid a ok.inv s at fd g in ground arith)
          | inr q ↦
              let kept : find g a.transactions ≡ some t =
                (let f = find-forget tid a ok.inv s at fd g in ground arith) in
              let other : t ≢ tid = λ x.
                (let same : g ≡ fd =
                    ok.inv.sessions.distinct g fd tid
                      (subst (λ y. find g a.transactions ≡ some y) x kept) own in
                  ground arith) in
              rw (is_known, (forget-IsForgotten tid a ok.inv s at fd).others t other)
                (ok.sessions g t kept)
        ];
      }

  begin-sessions :
      (front_of_empty : ℕ) (t : Trq) (who now : ℕ)
      → t.request ≡ begin
      → Returns
          (λ (q : Monitor × Trq). Each (λ t. is_known t q.0.status ≡ true) q.0.transactions)
          (process_clientrq front_of_empty t who now a)
  unfolding process_clientrq dispatch begin_rq
  begin-sessions front_of_empty t who now e =
      let new : Tstat = record { pid = t.pid; block_no = 0; started = now; stat = begun } in
      rw e (
        Each-insert (λ t. is_known t (insert a.next_tid new a.status) ≡ true) who a.next_tid
          a.transactions (ground (arith, find-insert a.next_tid a.next_tid new a.status))
          (λ g t f. Grows-insert a.next_tid new a.status t (ok.sessions g t f)))

module _ (front_of_empty : ℕ) (a : Monitor) (ok : IsSound a) (room : a.next_tid + 1 < trid_mod)
    (apart : IsNoNumber front_of_empty) where
  begin-IsServed : (t : Trq) → t.request ≡ begin → IsServed front_of_empty t.request t.tid a
  begin-IsServed t e = record { room = room; known = λ n. absurd (n e); apart = λ n. absurd (n e) }

  own-IsServed :
      (t : Trq) (who : ℕ)
      → find who a.transactions ≡ some t.tid
      → IsServed front_of_empty t.request t.tid a
  own-IsServed t who own =
      let known = ok.sessions who t.tid own in
      let range = ok.inv.ids t.tid known in
      record {
        room = room;
        known = λ n. known;
        apart = λ n. apart t.tid range.0 (let r = range.1 in omega arith);
      }

-- A run of requests that fit the state in which they come, to a state that is sound again.
record IsFit (front_of_empty : ℕ) (may_leave : ℕ → Type 0) (m : Monitor) (n : ℕ) (m' : Monitor)
    : Type 0 where
  run : Reaches front_of_empty may_leave m m'
  sound : IsSound m'
  low : m'.next_tid ≤ m.next_tid + n

module _ {front_of_empty : ℕ} {may_leave : ℕ → Type 0} {m : Monitor} (ok : IsSound m)
    (apart : IsNoNumber front_of_empty) where
  served-IsFit :
      (n k : ℕ) (a b : Monitor) (t r : Trq) (who now : ℕ)
      → IsFit front_of_empty may_leave m n a
      → IsServed front_of_empty t.request t.tid a
      → process_clientrq front_of_empty t who now a ≡ returns (b, r)
      → Each (λ t. is_known t b.status ≡ true) b.transactions
      → b.next_tid ≤ m.next_tid + k
      → IsFit front_of_empty may_leave m k b
  served-IsFit n k a b t r who now f fit p known low = record {
    run = served t r who now f.run fit p;
    sound = record {
      inv =
          subst (Returns (λ (q : Monitor × Trq). Inv q.0)) p
            (process_clientrq-Inv front_of_empty t who now a f.sound.inv fit);
      sessions = known;
    };
    low = low;
  }

  HonestRun-IsFit :
      {n : ℕ} {m' : Monitor}
      → HonestRun front_of_empty may_leave m n m'
      → m.next_tid + n + 1 < trid_mod
      → IsFit front_of_empty may_leave m n m'
  unfolding accept_client
  HonestRun-IsFit at_start room = record { run = here; sound = ok; low = omega arith }
  HonestRun-IsFit (connects {n} {a} fd run) room =
      let f = HonestRun-IsFit run room in
      record { run = connected fd f.run; sound = accept_client-IsSound a f.sound fd; low = f.low }
  HonestRun-IsFit (begins {n} {a} {b} t r who now run e p) room =
      let f = HonestRun-IsFit run (omega arith) in
      let few = f.low in
      let more =
        subst (IfReturns (OneMore a)) p (process_clientrq-OneMore front_of_empty t who now a) in
      served-IsFit n (suc n) a b t r who now f
        (begin-IsServed front_of_empty a f.sound (omega arith) apart t e) p
        (subst
          (Returns
            (λ (q : Monitor × Trq). Each (λ t. is_known t q.0.status ≡ true) q.0.transactions))
          p (begin-sessions a f.sound front_of_empty t who now e))
        (let one = more.next_tid in omega arith)
  HonestRun-IsFit (asks {n} {a} {b} t r who now run e own p) room =
      let f = HonestRun-IsFit run room in
      let few = f.low in
      let fit = own-IsServed front_of_empty a f.sound (omega arith) apart t who own in
      let same =
        subst (IfReturns (Served a)) p (process_clientrq-Served front_of_empty t who now a e) in
      let grows =
        subst (Returns (λ (q : Monitor × Trq). Grows a.status q.0.status)) p
          (process_clientrq-Grows front_of_empty who now t a f.sound.inv fit) in
      served-IsFit n n a b t r who now f fit p
        (rw same.transactions (λ g x at. grows x (f.sound.sessions g x at)))
        (let next = same.next_tid in omega arith)
  HonestRun-IsFit (leaves {n} {a} fd tid run may own) room =
      let f = HonestRun-IsFit run room in
      let (s, at) = known_status tid a (f.sound.sessions fd tid own) in
      record {
        run = disconnected fd tid s f.run may own at;
        sound = forget-IsSound a f.sound fd tid own;
        low = rw (next_tid-forget tid a f.sound.inv s at fd) f.low;
      }

-- The monitor starts with its constructor, and then clients connect, send requests and disconnect in
-- any order; each request but BEGIN comes with the number that its sender got for its last BEGIN. As
-- long as the numbers last (at most 2 ^ 64 - 3 BEGINs), and if readers.front() of an empty list is no
-- number of a transaction, in every state each holder of a block has a status, no block has readers
-- beside a writer, every number that was given out is below the next one, no two clients share a
-- transaction, and the transaction of each client has a status.
pub HonestRun-IsSound :
    {front_of_empty n : ℕ} {m : Monitor}
    → IsNoNumber front_of_empty
    → n + 2 < trid_mod
    → HonestRun front_of_empty (λ t. Unit {0}) init n m
    → IsSound m
unfolding init
HonestRun-IsSound apart few run = (HonestRun-IsFit init-IsSound apart run (omega arith)).sound

-- Once a transaction is preempted there is no way back for it: from a state in which the invariant
-- holds and the transaction of each client has a status, after any run of connections, requests of it
-- and of others, and disconnections of others, whatever it asks for but BEGIN is answered by DIE and
-- changes nothing. The requests of the run but BEGIN come with the number that their sender got for
-- its last BEGIN, the numbers last, and readers.front() of an empty list is no number of a
-- transaction.
pub preempted_for_good :
    (front_of_empty c who now n : ℕ) (t : Trq) (m m' : Monitor)
    → IsSound m
    → IsNoNumber front_of_empty
    → m.next_tid + n + 1 < trid_mod
    → IsDoomed c m
    → is_known c m.status ≡ true
    → HonestRun front_of_empty (λ t. t ≢ c) m n m'
    → t.tid ≡ c
    → t.request ≢ begin
    → process_clientrq front_of_empty t who now m' ≡ returns (m', answer t die)
preempted_for_good front_of_empty c who now n t m m' ok apart few doomed known run own asking =
    condemned_dies front_of_empty c who now t m m' ok.inv doomed known
      (HonestRun-IsFit ok apart run few).run own asking
