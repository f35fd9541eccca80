-- ===== src/Monitor/Session.antt =====
-- The requests of one client to src/Monitor.cc, from BEGIN to END, that meet no other one.
use mathlib.Core.Path.{subst, sym}
use system_t.Monitor.Returns.{Returns, Returns-bind}
use system_t.Base.{ℕ, ◌<◌, ◌+◌, ◌≡◌, refl, ◌≢◌, inl, List, [], ◌∷◌, arith}
use system_t.Map.{modify, find-insert, find-modify}
use system_t.Config.{trid_mod}
use system_t.Outcome.{Outcome, returns, ◌>>=◌}
use system_t.Trq.{Reply, Trq, ok, begin, commit, end}
use system_t.Monitor.State.{Monitor, committing, with_stat, begun}
use system_t.Monitor.Handlers.{
  process_clientrq, dispatch, was_preempted, begin_rq, commit_rq, note_status, answer,
}
use system_t.Monitor.Invariant.{Inv}
use system_t.Monitor.Safety.{begin_rq-Inv}
use system_t.Monitor.Policy.Evict.{Member}
use system_t.Monitor.Policy.Entries.{HolderAt}
use system_t.Monitor.Committing.{end_rq-granted}
use system_t.Monitor.Lone.{IsAlone}
use system_t.Monitor.LoneLocks.{IsLock, written_after, served, not_preempted}

-- The messages of the client `who`, each with the time at which it is served, and the replies.
unfoldable pub ask_all : ℕ → ℕ → List (Trq × ℕ) → Monitor → Outcome (Monitor × List Trq)
ask_all front_of_empty who [] m = returns (m, [])
ask_all front_of_empty who ((t, now) ∷ ts) m = do
  (m₁, r) ← process_clientrq front_of_empty t who now m
  (m₂, rs) ← ask_all front_of_empty who ts m₁
  returns (m₂, r ∷ rs)

abbrev pub AllOk : List Trq → Type 0
AllOk [] = Unit
AllOk (r ∷ rs) = (r.reply ≡ ok) × AllOk rs

-- Requests for locks, none of them for a block that the transaction `c` writes by then, and COMMIT
-- and END.
pub data IsSession (c : ℕ) : List ℕ → List (Trq × ℕ) → Type 0 where
  closes :
      {written : List ℕ} (t u : Trq) (now later : ℕ)
      → t.tid ≡ c
      → t.request ≡ commit
      → u.tid ≡ c
      → u.request ≡ end
      → IsSession c written ((t, now) ∷ (u, later) ∷ [])
  locks :
      {written : List ℕ} {ts : List (Trq × ℕ)} (t : Trq) (now : ℕ)
      → t.tid ≡ c
      → IsLock t.request
      → ¬ Member t.block_no written
      → IsSession c (written_after t.request t.block_no written) ts
      → IsSession c written ((t, now) ∷ ts)

reply-answer : (t : Trq) (r : Reply) → (answer t r).reply ≡ r
unfolding answer
reply-answer t r = refl

module _ (front_of_empty who : ℕ) where
  committed :
      (c : ℕ) (written : List ℕ) (m : Monitor) (t : Trq) (now : ℕ)
      → IsAlone c written m
      → t.tid ≡ c
      → t.request ≡ commit
      → process_clientrq front_of_empty t who now m
        ≡ returns (record m { status = modify t.tid (with_stat committing) m.status }, answer t ok)
  unfolding process_clientrq dispatch commit_rq note_status was_preempted
  committed c written m t now k e r =
      let k' = subst (λ x. IsAlone x written m) (sym e) k in
      rw (r, not_preempted front_of_empty who t.tid written m k') (rw (k'.status, note_status) refl)

  begin_rq-IsAlone :
      (m : Monitor) (t : Trq) (now : ℕ)
      → ((b holder : ℕ) → ¬ HolderAt m b holder)
      → IsAlone m.next_tid [] (begin_rq t who now m).0
  unfolding begin_rq
  begin_rq-IsAlone m t now free = record {
    tstat = record { pid = t.pid; block_no = 0; started = now; stat = begun };
    status = ground (
      arith,
      find-insert m.next_tid m.next_tid
          (record { pid = t.pid; block_no = 0; started = now; stat = begun }) m.status,
    );
    lives = λ e. cc;
    only = λ b h at. absurd (free b h at);
    writes = λ b (h, at, w). absurd (free b m.next_tid (h, at, inl w));
  }

  sent :
      {c : ℕ} {written : List ℕ} {ts : List (Trq × ℕ)}
      → IsSession c written ts
      → (m : Monitor) → Inv m
      → IsAlone c written m
      → c ≢ front_of_empty
      → Returns (λ q. AllOk q.1) (ask_all front_of_empty who ts m)
  unfolding ask_all
  sent (closes t u now later e r f s) m v k apart = rw (committed _ _ m t now k e r) (
      rw
        (end_rq-granted front_of_empty u who later
          (record m { status = modify t.tid (with_stat committing) m.status })
          (with_stat committing k.tstat)
          (let at = k.status in
            ground (arith, find-modify t.tid u.tid (with_stat committing) m.status))
          refl s)
        (reply-answer t ok, (reply-answer u ok, tt)))
  sent (locks t now e l fresh rest) m v k apart =
      Returns-bind _ (λ (q : Monitor × List Trq). AllOk q.1)
        (process_clientrq front_of_empty t who now m) _
        (served front_of_empty who _ _ m t now v k apart e l fresh)
        (λ (a, r) (w, good, lone).
          Returns-bind (λ (q : Monitor × List Trq). AllOk q.1)
            (λ (q : Monitor × List Trq). AllOk q.1) (ask_all front_of_empty who _ a)
            (λ q. returns (q.0, r ∷ q.1)) (sent rest a w lone apart) (λ q all. (good, all)))

-- Under the invariant, where no block is held and numbers last, a client that begins, then sends requests for locks for
-- its transaction, none of them for a block that it already writes, and then COMMIT and END, is
-- answered OK to every one of them, as long as no other client sends any. The condition is that the
-- number of the transaction is not the one that readers.front() reads from an empty list.
pub ask_all-grants :
    (front_of_empty who : ℕ) (m : Monitor) (t : Trq) (now : ℕ) (ts : List (Trq × ℕ))
    → Inv m
    → m.next_tid + 1 < trid_mod
    → m.next_tid ≢ front_of_empty
    → ((b holder : ℕ) → ¬ HolderAt m b holder)
    → t.request ≡ begin
    → IsSession m.next_tid [] ts
    → Returns (λ q. AllOk q.1) (ask_all front_of_empty who ((t, now) ∷ ts) m)
unfolding ask_all process_clientrq dispatch begin_rq
ask_all-grants front_of_empty who m t now ts v room apart free b s = rw b (
    Returns-bind _ _ (ask_all front_of_empty who ts (begin_rq t who now m).0) _
      (sent front_of_empty who s (begin_rq t who now m).0 (begin_rq-Inv t who now m v room)
        (begin_rq-IsAlone front_of_empty who m t now free) apart)
      (λ q all. (refl, all)))
