-- ===== src/Programs/Fresh.antt =====
-- Allocation on the store as src/initstore.cc leaves it.
use mathlib.Core.Path.{subst}
use system_t.Base.{
  ℕ, zero, suc, ◌+◌, ◌≤◌, ◌<◌, ◌≡◌, refl, sym, ap, ◌∙◌, inl, inr, Bool, true, some, List, [], ◌∷◌,
  arith, ◌==◌, if◌then◌else◌, Bool-cases, List-cases, ◌≢◌,
}
use system_t.Map.{find, find-insert}
use system_t.Config.{nblocks}
use system_t.Trq.{Trq, ok, allocate}
use system_t.Disk.{unallocated, replicate, length}
use system_t.Transaction.State.{
  Mblock, a_lock, Transaction, Ran, gives, ◌>>=◌, and_then, new_buffer,
}
use system_t.Transaction.Calls.{
  drop, next_free, find_free_block, restart_transaction, allocate_block, put_mblock, blank_block,
}
use system_t.Transaction.Faults.{asked}
use system_t.Transaction.Refine.{ask_tpm-ok}
use system_t.Programs.Serial.{allocate_times}

-- The first entry after `n` of the index is free.
next_free-fresh : (n m k : ℕ) → n < m → next_free (drop n (replicate m unallocated)) k ≡ (k, true)
unfolding next_free
next_free-fresh n zero k h = absurd (omega arith)
next_free-fresh zero (suc m) k h = refl
next_free-fresh (suc n) (suc m) k h = next_free-fresh n m k (omega arith)

abbrev pub AllOk : List Trq → Type 0
AllOk [] = Unit
AllOk (r ∷ rs) = (r.reply ≡ ok) × AllOk rs

-- No block is taken, and the monitor has granted all that is still to be asked.
pub record IsFresh (s : Transaction) : Type 0 where
  pub free : s.disk.index ≡ replicate nblocks unallocated
  pub granted : AllOk s.replies

-- The code gave a value, in a state with the property.
abbrev pub GivesWith : {A : Type 0} → (Transaction → Type 0) → Ran A → Type 0
GivesWith Q (gives a t) = Q t
GivesWith Q _ = ⊥

-- The block after the last one is in the block map, to be allocated; the others are as they were.
pub record Taken (s t : Transaction) (b : ℕ) : Type 0 where
  pub last : t.last_free_block ≡ b
  pub fresh : IsFresh t
  pub replies : suc (length t.replies) ≡ length s.replies
  pub entry : (mb : Mblock) × (find b t.blockmap ≡ some mb) × (mb.lock ≡ a_lock)
  pub others : (j : ℕ) → j ≢ b → find j t.blockmap ≡ find j s.blockmap

-- The entry of a block that is given to the object.
abbrev new_entry : Transaction → Mblock
new_entry s = record {
  lock = a_lock;
  data_ = some s.heap.fresh;
  oldval = some s.heap.fresh;
  oldindex = unallocated;
}

-- The object after the next block was given to it.
abbrev taking : Transaction → List Trq → Transaction
taking s later =
    let n = s.last_free_block + 1 in
    let s' = asked allocate n later (record s { last_free_block = n }) in
    let (p, h) = new_buffer blank_block s'.heap in
    put_mblock n (record { lock = a_lock; data_ = some p; oldval = some p; oldindex = unallocated })
      h s'

module _ (s : Transaction) (r : Trq) (later : List Trq) (f : IsFresh s) (e : s.replies ≡ r ∷ later)
    (room : s.last_free_block < nblocks) where
  find_free_block-fresh :
      find_free_block s
      ≡ gives (s.last_free_block + 1) (record s { last_free_block = s.last_free_block + 1 })
  unfolding find_free_block
  find_free_block-fresh =
      let n = s.last_free_block in
      ap
        (λ (p : ℕ × Bool).
          let s' : Transaction = record s { last_free_block = p.0 } in
          if p.1 then gives p.0 s' else restart_transaction s')
        (ap (λ index. next_free (drop n index) (n + 1)) f.free
          ∙ next_free-fresh n nblocks (n + 1) room)

  head_ok : (r.reply ≡ ok) × AllOk later
  head_ok = subst AllOk e f.granted

  -- Where the next request is granted, the block that the loop looks at next is given.
  allocate_block-fresh :
      (fuel : ℕ) → allocate_block (suc fuel) s ≡ gives (s.last_free_block + 1) (taking s later)
  unfolding allocate_block
  allocate_block-fresh fuel =
      let n = s.last_free_block + 1 in
      rw (find_free_block-fresh, allocate_block)
        (rw (ask_tpm-ok allocate n (record s { last_free_block = n }) r later e head_ok.0) refl)

  taking-Taken : Taken s (taking s later) (s.last_free_block + 1)
  unfolding new_buffer
  taking-Taken = record {
    last = refl;
    fresh = record { free = f.free; granted = head_ok.1 };
    replies = sym (ap length e);
    entry = (
      new_entry s,
      let n = s.last_free_block + 1 in ground (arith, find-insert n n (new_entry s) s.blockmap),
      refl,
    );
    others = λ j n.
        let b = s.last_free_block + 1 in ground (arith, find-insert b j (new_entry s) s.blockmap);
  }

-- The blocks above the first number, up to the second, are to be allocated.
abbrev pub Allocates : ℕ → ℕ → Transaction → Type 0
Allocates low high t =
    (j : ℕ)
    → low < j
    → j ≤ high
    → (mb : Mblock) × (find j t.blockmap ≡ some mb) × (mb.lock ≡ a_lock)

-- All of them are, and the search goes on behind them.
abbrev pub HasTaken : ℕ → ℕ → Transaction → Type 0
HasTaken low high t = (t.last_free_block ≡ high) × Allocates low high t

-- One block more.
Allocates-next :
    (low : ℕ) (s t : Transaction)
    → Taken s t (s.last_free_block + 1)
    → Allocates low s.last_free_block s
    → Allocates low t.last_free_block t
Allocates-next low s t k a j above below =
    let b = s.last_free_block + 1 in
    let e = k.last in
    elim (Bool-cases (j == b)) [
      | inl q ↦
          let same : b ≡ j = ground arith in
          subst (λ i. (mb : Mblock) × (find i t.blockmap ≡ some mb) × (mb.lock ≡ a_lock)) same
            k.entry
      | inr q ↦
          let (mb, at, lock) = a j above (ground arith) in
          (mb, k.others j (ground arith) ∙ at, lock)
    ]

allocate_times-from :
    (fuel n low : ℕ) (s : Transaction)
    → IsFresh s
    → n ≤ length s.replies
    → s.last_free_block + n ≤ nblocks
    → Allocates low s.last_free_block s
    → GivesWith (HasTaken low (s.last_free_block + n)) (allocate_times (suc fuel) n s)
unfolding allocate_times and_then
allocate_times-from fuel zero low s f enough room a =
    (omega arith, λ j above below. a j above (omega arith))
allocate_times-from fuel (suc n) low s f enough room a = elim (List-cases s.replies) [
  | inl e ↦ absurd (let k = enough in ground (arith, e))
  | inr (r, later, e) ↦
      let small : s.last_free_block < nblocks = omega arith in
      let t = taking s later in
      let k = taking-Taken s r later f e small in
      let rest =
        allocate_times-from fuel n low t k.fresh (let l = k.replies in omega arith) (omega arith)
          (Allocates-next low s t k a) in
      subst (GivesWith (HasTaken low (s.last_free_block + suc n)))
        (sym (
          ap (λ x. x >>= λ _ u. allocate_times (suc fuel) n u)
            (allocate_block-fresh s r later f e small fuel)))
        (subst (λ m. GivesWith (HasTaken low m) (allocate_times (suc fuel) n t)) (omega arith) rest)
]

-- On a store of which no block is taken, a program that allocates several blocks in a loop gets the
-- next ones in turn, as st1 does, if the monitor grants all requests and the store has as many
-- blocks left: the loop ends, and each of them is in the block map, to be allocated.
pub allocate_times-HasTaken :
    (fuel n : ℕ) (s : Transaction)
    → IsFresh s
    → n ≤ length s.replies
    → s.last_free_block + n ≤ nblocks
    → GivesWith (HasTaken s.last_free_block (s.last_free_block + n)) (allocate_times (suc fuel) n s)
allocate_times-HasTaken fuel n s f enough room =
    allocate_times-from fuel n s.last_free_block s f enough room
      (λ j above below. absurd (omega arith))
