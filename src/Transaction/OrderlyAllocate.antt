-- ===== src/Transaction/OrderlyAllocate.antt =====
-- allocate of src/Transaction.cc, and what it asks the monitor for.
use mathlib.Core.Path.{subst}
use system_t.Base.{
  ℕ, ◌≡◌, refl, inl, inr, Bool, true, some, List, sym, if◌then◌else◌, ◌∙◌, arith, suc, zero, ◌≤◌,
}
use system_t.Trq.{Trq, allocate}
use system_t.Disk.{allocated, unallocated}
use system_t.Monitor.Policy.Evict.{Member}
use system_t.Monitor.LoneLocks.{allocates}
use system_t.Transaction.State.{
  a_lock, Transaction, Ran, gives, throws, faults, Act, waits, ends, spins, ◌>>=◌, new_buffer,
}
use system_t.Transaction.Calls.{allocate_block, find_free_block, ask_tpm, blank_block, put_mblock}
use system_t.Transaction.Ends.{Ends}
use system_t.Transaction.Allocate.{IsFound, find_free_block-Ends}
use system_t.Transaction.Asking.{Gives, Gives-bind, Asks, ask_tpm-Asks}
use system_t.Transaction.Held.{IsOrderly, takes-IsOrderly}
use system_t.Transaction.Orderly.{StaysOrderly}

taken : ¬ (some allocated ≡ some unallocated)
taken e = ground arith

Ends-Gives : {A : Type 0} (P : A → Transaction → Type 0) (r : Ran A) → Ends P r → Gives P r
Ends-Gives P (gives a s) p = p
Ends-Gives P (throws e s) p = tt
Ends-Gives P waits p = tt
Ends-Gives P faults p = tt
Ends-Gives P ends p = tt
Ends-Gives P spins p = absurd p

module _ (c : ℕ) (base : List Trq) where
  -- A block that find_free_block gives is none of those in use.
  found-IsOrderly :
      (written : List ℕ) (s : Transaction) (n : ℕ)
      → IsOrderly c base written s
      → IsFound s n (record s { last_free_block = n })
      → IsOrderly c base written (record s { last_free_block = n }) × ¬ Member n written
  found-IsOrderly written s n k f = (
    record {
      self = k.self;
      log = k.log;
      holds = k.holds;
      used = λ b at. elim (k.used b at) [
        | inl old ↦ inl (let y = f.beyond in omega arith)
        | inr on_disk ↦ inr on_disk
      ];
      granted = k.granted;
    },
    λ at. elim (k.used n at) [
      | inl old ↦ let y = f.beyond in omega arith
      | inr on_disk ↦ taken (sym on_disk ∙ f.free)
    ],
  )

  -- The request for a block that was found, and its entry.
  abbrev asks_for : ℕ → Act ℕ → Act ℕ
  asks_for n again s₁ = ask_tpm allocate n s₁ >>= λ (found, _) s₂.
      if found
      then (let (p, h) = new_buffer blank_block s₂.heap in
          gives n (
            put_mblock n
              (record { lock = a_lock; data_ = some p; oldval = some p; oldindex = unallocated }) h
              s₂))
      else again s₂

  asks_for-StaysOrderly :
      (written : List ℕ) (s : Transaction) (n : ℕ) (again : Act ℕ)
      → IsOrderly c base written s
      → ¬ Member n written
      → n ≤ s.last_free_block
      → Gives (StaysOrderly c base) (asks_for n again s)
  asks_for-StaysOrderly written s n again k fresh low =
      Gives-bind (λ (a : Bool × Trq) t. (a.0 ≡ true) × Asks allocate n s t) (StaysOrderly c base)
        (ask_tpm allocate n s) _ (ask_tpm-Asks allocate n s k.granted)
        (λ a t (g, asks). rw g (
          _,
          takes-IsOrderly c base written allocate n s t _ _ k allocates fresh (λ e. refl)
              (λ e. inl (rw asks.last_free_block low)) asks,
        ))

  pub allocate_block-StaysOrderly :
      (fuel : ℕ) (written : List ℕ) (s : Transaction)
      → IsOrderly c base written s
      → Gives (StaysOrderly c base) (allocate_block fuel s)
  unfolding allocate_block
  allocate_block-StaysOrderly zero written s k = tt
  allocate_block-StaysOrderly (suc fuel) written s k =
      Gives-bind (IsFound s) (StaysOrderly c base) (find_free_block s) _
        (Ends-Gives (IsFound s) (find_free_block s) (find_free_block-Ends s))
        (λ n s₁ f.
          let f' : IsFound s n (record s { last_free_block = n }) = subst (IsFound s n) f.moved f in
          let (k', fresh) = found-IsOrderly written s n k f' in
          subst (λ x. Gives (StaysOrderly c base) (asks_for n (allocate_block fuel) x))
            (sym f.moved)
            (asks_for-StaysOrderly written _ n (allocate_block fuel) k' fresh (omega arith)))
