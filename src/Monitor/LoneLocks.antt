-- ===== src/Monitor/LoneLocks.antt =====
-- Requests for locks to src/Monitor.cc from a transaction that holds all the locks there are.
use mathlib.Core.Path.{subst, sym}
use system_t.Monitor.Returns.{Returns, Returns-map, both, pair, IfReturns-all, IfReturns-given}
use system_t.Base.{ℕ, ◌≡◌, refl, ◌∙◌, ◌≢◌, inr, true, false, List, ◌∷◌}
use system_t.Trq.{Request, Trq, ok, read, write, allocate, release}
use system_t.Monitor.State.{Monitor, preempted, Status, is_preempted}
use system_t.Monitor.Handlers.{process_clientrq, dispatch, was_preempted, is_begin}
use system_t.Monitor.Invariant.{Inv, is_known}
use system_t.Monitor.Safety.{allocate_rq-Inv, release_rq-Inv, read_rq-Inv, write_rq-Inv}
use system_t.Monitor.Policy.Evict.{Member}
use system_t.Monitor.Policy.Requests.{
  allocate_rq-arbitrates, release_rq-arbitrates, read_rq-arbitrates, write_rq-arbitrates,
}
use system_t.Monitor.Readers.{ReadsNone, read_rq-ReadsNone}
use system_t.Monitor.Lone.{IsAlone, written-IsAlone, read-IsAlone}

-- A request for a lock.
pub data IsLock : Request → Type 0 where
  reads : IsLock read
  writes : IsLock write
  allocates : IsLock allocate
  releases : IsLock release

abbrev pub written_after : Request → ℕ → List ℕ → List ℕ
written_after read b written = written
written_after _ b written = b ∷ written

module _ (front_of_empty who : ℕ) where
  module _ (written : List ℕ) (m : Monitor) (v : Inv m) (t : Trq) (now : ℕ)
      (k : IsAlone t.tid written m) (fresh : ¬ Member t.block_no written)
      (apart : t.tid ≢ front_of_empty) where
    abbrev Locked : Request → Monitor × Trq → Type 0
    Locked r (m', a) = (a.reply ≡ ok) × IsAlone t.tid (written_after r t.block_no written) m'

    known : is_known t.tid m.status ≡ true
    known = rw (k.status, is_known) refl

    others : (c : ℕ) → c ≢ t.tid → ReadsNone c m.blockmap
    others c n b h at listed = n (k.only b c (h, at, inr listed))

    granted : {r : Request} → IsLock r → Returns (Locked r) (dispatch front_of_empty r t who now m)
    unfolding dispatch
    granted allocates =
        Returns-map _ (Locked allocate) _
          (written-IsAlone t.tid written m k t.block_no now fresh _ (λ e. cc))
          (allocate_rq-arbitrates m v t now)
    granted releases =
        Returns-map _ (Locked release) _
          (written-IsAlone t.tid written m k t.block_no now fresh _ (λ e. cc))
          (release_rq-arbitrates m v t now)
    granted writes =
        Returns-map _ (Locked write) _
          (written-IsAlone t.tid written m k t.block_no now fresh _ (λ e. cc))
          (write_rq-arbitrates m v t now front_of_empty apart)
    granted reads =
        both _ _ (Locked read) _
          (λ r taken absent.
            read-IsAlone t.tid written m k t.block_no now fresh _ (λ e. cc) r absent taken)
          (read_rq-arbitrates m v t now)
          (IfReturns-all (λ c (r : Monitor × Trq). c ≢ t.tid → ReadsNone c r.0.blockmap) _
            (λ c.
              IfReturns-given (c ≢ t.tid) _ _ (λ n. read_rq-ReadsNone c t now m n (others c n))))

    kept :
        {r : Request}
        → IsLock r
        → Returns (λ (q : Monitor × Trq). Inv q.0) (dispatch front_of_empty r t who now m)
    unfolding dispatch
    kept allocates = allocate_rq-Inv t now m v known
    kept releases = release_rq-Inv t now m v known
    kept writes = write_rq-Inv t now m v known front_of_empty apart
    kept reads = read_rq-Inv t now m v known

  is_preempted_ne : (s : Status) → s ≢ preempted → is_preempted s ≡ false
  is_preempted_ne preempted n = absurd (n refl)
  is_preempted_ne s n = refl

  is_begin_lock : {r : Request} → IsLock r → is_begin r ≡ false
  is_begin_lock reads = refl
  is_begin_lock writes = refl
  is_begin_lock allocates = refl
  is_begin_lock releases = refl

  pub not_preempted :
      (c : ℕ) (written : List ℕ) (m : Monitor) → IsAlone c written m → was_preempted c m ≡ false
  unfolding was_preempted
  not_preempted c written m k = rw (k.status, was_preempted) (is_preempted_ne k.tstat.stat k.lives)

  -- One request for a lock.
  pub served :
      (c : ℕ) (written : List ℕ) (m : Monitor) (t : Trq) (now : ℕ)
      → Inv m
      → IsAlone c written m
      → c ≢ front_of_empty
      → t.tid ≡ c
      → IsLock t.request
      → ¬ Member t.block_no written
      → Returns
          (λ (q : Monitor × Trq).
            Inv q.0 × (q.1.reply ≡ ok) × IsAlone c (written_after t.request t.block_no written) q.0)
          (process_clientrq front_of_empty t who now m)
  unfolding process_clientrq
  served c written m t now v k apart e l fresh =
      let k' = subst (λ x. IsAlone x written m) (sym e) k in
      let own : t.tid ≢ front_of_empty = (λ z. apart (sym e ∙ z)) in
      rw (is_begin_lock l, not_preempted t.tid written m k')
        (Returns-map (λ q. Inv q.0 × Locked written m v t now k' fresh own t.request q) _ _
          (λ q (w, (r, a)).
            (w, r, subst (λ x. IsAlone x (written_after t.request t.block_no written) q.0) e a))
          (pair _ _ (dispatch front_of_empty t.request t who now m)
            (kept written m v t now k' fresh own l) (granted written m v t now k' fresh own l)))
