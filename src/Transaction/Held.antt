-- ===== src/Transaction/Held.antt =====
-- The entries of the block map of src/Transaction.cc, and the locks that were asked for.
use mathlib.Core.Path.{subst}
use system_t.Base.{
  ℕ, ◌-◌, ◌≤◌, ◌⊎◌, ◌≡◌, sym, ◌∙◌, ◌≢◌, inl, inr, Bool, true, false, none, some, List, [], ◌∷◌,
  arith, ◌==◌, Option-cases, Bool-cases,
}
use system_t.Map.{Map, find, insert, modify, find-insert, find-modify}
use system_t.Trq.{Request, Trq, ok, read}
use system_t.Disk.{get_elem?, allocated}
use system_t.Monitor.Policy.Evict.{Member}
use system_t.Monitor.LoneLocks.{IsLock, reads, writes, allocates, releases, written_after}
use system_t.Monitor.Session.{AllOk}
use system_t.Transaction.State.{Locktype, r_lock, Mblock, Heap, Transaction, delete}
use system_t.Transaction.Calls.{put_mblock, drop_data}
use system_t.Transaction.Asking.{Gives, Asks}

-- From the messages `base` on, newest first: requests for locks, none of them for a block that the
-- transaction `c` was to write by then.
pub data LockLog (c : ℕ) (base : List Trq) : List Trq → List ℕ → Type 0 where
  unasked : LockLog c base base []
  asked :
      {sent : List Trq} {written : List ℕ} (t : Trq)
      → LockLog c base sent written
      → t.tid ≡ c
      → IsLock t.request
      → ¬ Member t.block_no written
      → LockLog c base (t ∷ sent) (written_after t.request t.block_no written)

abbrev pub is_r_lock : Locktype → Bool
is_r_lock r_lock = true
is_r_lock _ = false

-- The blocks have an entry that is no read lock.
abbrev pub Held : List ℕ → Map Mblock → Type 0
Held written bm =
    (b : ℕ) → Member b written → (mb : Mblock) × (find b bm ≡ some mb) × (is_r_lock mb.lock ≡ false)

Held-insert :
    (written : List ℕ) (b : ℕ) (mb : Mblock) (bm : Map Mblock)
    → is_r_lock mb.lock ≡ false
    → Held written bm
    → Held (b ∷ written) (insert b mb bm)
Held-insert written b mb bm x k a at = elim (Bool-cases (b == a)) [
  | inl q ↦ (mb, ground (arith, find-insert b a mb bm), x)
  | inr q ↦
      let (w, f, y) = k a (elim at [ inl e ↦ absurd (ground arith) | inr later ↦ later ]) in
      (w, ground (arith, find-insert b a mb bm), y)
]

Held-aside :
    (written : List ℕ) (b : ℕ) (mb : Mblock) (bm : Map Mblock)
    → ¬ Member b written
    → Held written bm
    → Held written (insert b mb bm)
Held-aside written b mb bm fresh k a at = elim (Bool-cases (b == a)) [
  | inl q ↦
      let e : b ≡ a = ground arith in absurd (fresh (subst (λ x. Member x written) (sym e) at))
  | inr q ↦ let (w, f, y) = k a at in (w, ground (arith, find-insert b a mb bm), y)
]

pub Held-modify :
    (written : List ℕ) (b : ℕ) (f : Mblock → Mblock) (bm : Map Mblock)
    → ((mb : Mblock) → is_r_lock mb.lock ≡ false → is_r_lock (f mb).lock ≡ false)
    → Held written bm
    → Held written (modify b f bm)
Held-modify written b f bm keep k a at =
    let (w, e, y) = k a at in
    elim (Bool-cases (b == a)) [
      | inl q ↦ (f w, ground (arith, find-modify b a f bm), keep w y)
      | inr q ↦ (w, ground (arith, find-modify b a f bm), y)
    ]

-- The search for a free block is past the block, or the block is allocated on the disk.
abbrev pub IsUsed : ℕ → Transaction → Type 0
IsUsed b s = (b ≤ s.last_free_block) ⊎ (get_elem? s.disk.index (b - 1) ≡ some allocated)

-- The blocks that were asked for to write have an entry that is no read lock and are in use, and the
-- replies to come are all OK.
pub record IsOrderly (c : ℕ) (base : List Trq) (written : List ℕ) (s : Transaction) : Type 0 where
  pub self : s.tid ≡ c
  pub log : LockLog c base s.sent written
  pub holds : Held written s.blockmap
  pub used : (b : ℕ) → Member b written → IsUsed b s
  pub granted : AllOk s.replies

held :
    (written : List ℕ) (r : Request) (b : ℕ) (bm bm' : Map Mblock) (mb : Mblock)
    → IsLock r
    → bm' ≡ bm
    → ¬ Member b written
    → (r ≢ read → is_r_lock mb.lock ≡ false)
    → Held written bm
    → Held (written_after r b written) (insert b mb bm')
held written r b bm bm' mb reads e fresh kind k = rw e (Held-aside written b mb bm fresh k)
held written r b bm bm' mb writes e fresh kind k =
    rw e (Held-insert written b mb bm (kind (λ x. cc)) k)
held written r b bm bm' mb allocates e fresh kind k =
    rw e (Held-insert written b mb bm (kind (λ x. cc)) k)
held written r b bm bm' mb releases e fresh kind k =
    rw e (Held-insert written b mb bm (kind (λ x. cc)) k)

IsUsed-cons :
    (written : List ℕ) (b : ℕ) (t : Transaction)
    → ((a : ℕ) → Member a written → IsUsed a t)
    → IsUsed b t
    → (a : ℕ) → Member a (b ∷ written)
    → IsUsed a t
IsUsed-cons written b t k at a (inl e) = subst (λ x. IsUsed x t) e at
IsUsed-cons written b t k at a (inr later) = k a later

IsUsed-written_after :
    (written : List ℕ) (r : Request) (b : ℕ) (t : Transaction)
    → IsLock r
    → ((a : ℕ) → Member a written → IsUsed a t)
    → (r ≢ read → IsUsed b t)
    → (a : ℕ) → Member a (written_after r b written)
    → IsUsed a t
IsUsed-written_after written r b t reads k at = k
IsUsed-written_after written r b t writes k at = IsUsed-cons written b t k (at (λ e. cc))
IsUsed-written_after written r b t allocates k at = IsUsed-cons written b t k (at (λ e. cc))
IsUsed-written_after written r b t releases k at = IsUsed-cons written b t k (at (λ e. cc))

module _ (c : ℕ) (base : List Trq) where
  -- A request for a lock, and its entry in the block map.
  pub takes-IsOrderly :
      (written : List ℕ) (r : Request) (b : ℕ) (s t : Transaction) (mb : Mblock) (h : Heap)
      → IsOrderly c base written s
      → IsLock r
      → ¬ Member b written
      → (r ≢ read → is_r_lock mb.lock ≡ false)
      → (r ≢ read → IsUsed b t)
      → Asks r b s t
      → IsOrderly c base (written_after r b written) (put_mblock b mb h t)
  takes-IsOrderly written r b s t mb h k l fresh kind at asks = record {
    self = asks.tid ∙ k.self;
    log =
        let rq : Trq = record { tid = s.tid; pid = s.pid; request = r; reply = ok; block_no = b } in
        rw asks.sent (asked rq k.log k.self l fresh);
    holds = held written r b s.blockmap t.blockmap mb l asks.blockmap fresh kind k.holds;
    used = IsUsed-written_after written r b t l (rw (asks.disk, asks.last_free_block) k.used) at;
    granted = asks.granted;
  }

  pub drop_data-IsOrderly :
      (written : List ℕ) (b : ℕ) (mb : Mblock) (s : Transaction)
      → IsOrderly c base written s
      → Gives (λ _ t. IsOrderly c base written t) (drop_data b mb s)
  unfolding drop_data
  drop_data-IsOrderly written b mb s k = elim (Option-cases mb.data_) [
    | inl e ↦ rw (e, drop_data) k
    | inr (p, e) ↦
        rw (e, drop_data)
          (elim (Option-cases (delete p s.heap)) [
            | inl x ↦ rw x tt
            | inr (h, x) ↦ rw x (record {
              self = k.self;
              log = k.log;
              used = k.used;
              holds =
                  Held-modify written b (λ q. record q { data_ = none }) s.blockmap (λ q z. z)
                    k.holds;
              granted = k.granted;
            })
          ])
  ]

  -- A block with a read lock, or with none, is not one of those that it writes.
  pub unwritten :
      (written : List ℕ) (b : ℕ) (s : Transaction)
      → IsOrderly c base written s
      → ((mb : Mblock) → find b s.blockmap ≡ some mb → is_r_lock mb.lock ≡ true)
      → ¬ Member b written
  unwritten written b s k only at = let (mb, f, w) = k.holds b at in let r = only mb f in cc
