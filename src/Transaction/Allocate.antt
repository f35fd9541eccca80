-- ===== src/Transaction/Allocate.antt =====
-- Transaction::allocate and find_free_block of src/Transaction.cc: the search for a free block.
use system_t.Transaction.Ends.{
  Ends, IsStill, Ends-if, Ends-bind, restart_transaction-Ends, ask_tpm-Ends,
}
use system_t.Transaction.Calls.{
  next_free, drop, ask_tpm, restart_transaction, blank_block, find_free_block, allocate_block,
}
use system_t.Base.{
  ℕ, zero, suc, ◌+◌, ◌-◌, ◌≤◌, ◌<◌, ◌≡◌, refl, sym, ap, ◌∙◌, inl, inr, Bool, true, some, List, [],
  ◌∷◌, arith, ◌==◌, Bool-cases,
}
use system_t.Map.{find, find-insert}
use system_t.Trq.{Trq, allocate}
use system_t.Disk.{unallocated, get_elem?, length}
use system_t.Transaction.State.{
  Transaction, Ran, gives, throws, waits, faults, ends, spins, a_lock, new_buffer,
}

-- What the search over the rest of an index finds.
next_free-found :
    (cs : List ℕ) (n : ℕ)
    → (next_free cs n).1 ≡ true
    → (i : ℕ) × ((next_free cs n).0 ≡ n + i) × (i < length cs) × (get_elem? cs i ≡ some unallocated)
unfolding next_free
next_free-found [] n e = absurd (cc)
next_free-found (c ∷ cs) n e = elim (Bool-cases (c == unallocated)) [
  | inl free ↦ (0, rw free (omega arith), omega arith, ground arith)
  | inr used ↦
      let (i, at, inside, is_free) = next_free-found cs (n + 1) (rw used at e) in
      (suc i, rw used (omega (arith, at)), omega (arith, inside), is_free)
]

get_elem?-drop : (k i : ℕ) (xs : List ℕ) → get_elem? (drop k xs) i ≡ get_elem? xs (k + i)
get_elem?-drop zero i xs = let same : i ≡ 0 + i = omega arith in ap (get_elem? xs) same
get_elem?-drop (suc k) i [] = refl
get_elem?-drop (suc k) i (x ∷ xs) =
    let same : suc (k + i) ≡ suc k + i = omega arith in
    get_elem?-drop k i xs ∙ ap (get_elem? (x ∷ xs)) same

length-drop : (k : ℕ) (xs : List ℕ) → length (drop k xs) ≡ length xs - k
length-drop zero xs = omega arith
length-drop (suc k) [] = omega arith
length-drop (suc k) (x ∷ xs) = omega (arith, length-drop k xs)

-- A block that the search found, beyond the last one.
pub record IsFound (s : Transaction) (n : ℕ) (s' : Transaction) : Type 0 where
  pub moved : s' ≡ record s { last_free_block = n }
  still : s'.disk ≡ s.disk
  last : s'.last_free_block ≡ n
  pub beyond : s.last_free_block < n
  inside : n ≤ length s.disk.index
  pub free : get_elem? s.disk.index (n - 1) ≡ some unallocated

pub find_free_block-Ends : (s : Transaction) → Ends (IsFound s) (find_free_block s)
unfolding find_free_block
find_free_block-Ends s =
    let found = next_free (drop s.last_free_block s.disk.index) (s.last_free_block + 1) in
    let s' : Transaction = record s { last_free_block = found.0 } in
    Ends-if (IsFound s) found.1 (gives found.0 s') (restart_transaction s')
      (λ e.
        let (i, at, inside, free) =
          next_free-found (drop s.last_free_block s.disk.index) (s.last_free_block + 1) e in
        let size = length-drop s.last_free_block s.disk.index in
        record {
          moved = refl;
          still = refl;
          last = refl;
          beyond = omega (arith, at);
          inside = omega (arith, at, inside, size);
          free =
              let same : found.0 - 1 ≡ s.last_free_block + i = omega (arith, at) in
              ap (get_elem? s.disk.index) same
              ∙ sym (get_elem?-drop s.last_free_block i s.disk.index)
              ∙ free;
        })
      (λ _. restart_transaction-Ends (IsFound s) s')

-- What allocate gives: a block that is free on the disk, with a buffer of its own.
pub record IsAllocated (s : Transaction) (b : ℕ) (s' : Transaction) : Type 0 where
  pub pos : 0 < b
  pub free : get_elem? s.disk.index (b - 1) ≡ some unallocated
  pub entry :
      (p : ℕ) × (find b s'.blockmap
        ≡ some (record { lock = a_lock; data_ = some p; oldval = some p; oldindex = unallocated }))
      × (find p s'.heap.buffers ≡ some blank_block)
  pub disk : s'.disk ≡ s.disk

Ends-map :
    {A : Type 0} (G H : A → Transaction → Type 0) (r : Ran A)
    → ((a : A) (s : Transaction) → G a s → H a s)
    → Ends G r
    → Ends H r
Ends-map G H (gives a s) k g = k a s g
Ends-map G H (throws e s) k g = tt
Ends-map G H waits k g = tt
Ends-map G H faults k g = tt
Ends-map G H ends k g = tt
Ends-map G H spins k g = g

-- The same disk, seen from the state before a failed attempt.
IsAllocated-before :
    (s s₂ : Transaction) (b : ℕ) (s' : Transaction)
    → s₂.disk ≡ s.disk
    → IsAllocated s₂ b s'
    → IsAllocated s b s'
IsAllocated-before s s₂ b s' same a = record {
  pos = a.pos;
  free = ap (λ d. get_elem? d.index (b - 1)) (sym same) ∙ a.free;
  entry = a.entry;
  disk = a.disk ∙ same;
}

shorter :
    (s s₁ s₂ : Transaction) (b fuel : ℕ)
    → IsFound s b s₁
    → IsStill s₁ s₂
    → length s.disk.index - s.last_free_block < suc fuel
    → length s₂.disk.index - s₂.last_free_block < fuel
shorter s s₁ s₂ b fuel f st enough =
    let same : length s₂.disk.index ≡ length s.disk.index =
      ap (λ d. length d.index) (st.0 ∙ f.still) in
    omega (arith, f.beyond, f.inside, f.last, st.1)

-- With more attempts than the index has entries after last_free_block, allocate does not loop for
-- ever. If it gives a block, the block is free on the disk, which is left alone; in the block map it
-- is to be allocated, with one buffer of '0' characters for both of its pointers.
pub allocate_block-Ends :
    (fuel : ℕ) (s : Transaction)
    → length s.disk.index - s.last_free_block < fuel
    → Ends (IsAllocated s) (allocate_block fuel s)
unfolding allocate_block new_buffer
allocate_block-Ends zero s enough = omega arith
allocate_block-Ends (suc fuel) s enough =
    Ends-bind {A = ℕ} {B = ℕ} (IsFound s) (IsAllocated s) (find_free_block s) _
      (find_free_block-Ends s)
      (λ b s₁ f.
        Ends-bind {A = Bool × Trq} {B = ℕ} (λ _ s₂. IsStill s₁ s₂) (IsAllocated s)
          (ask_tpm allocate b s₁) _ (ask_tpm-Ends allocate b s₁)
          (λ a s₂ st.
            Ends-if {A = ℕ} (IsAllocated s) a.0 _ (allocate_block fuel s₂)
              (λ _. record {
                pos = omega (arith, f.beyond);
                free = f.free;
                entry = (
                  s₂.heap.fresh,
                  ground (
                    arith,
                    find-insert b b
                        (record {
                          lock = a_lock;
                          data_ = some s₂.heap.fresh;
                          oldval = some s₂.heap.fresh;
                          oldindex = unallocated;
                        })
                        s₂.blockmap,
                  ),
                  ground
                      (arith, find-insert s₂.heap.fresh s₂.heap.fresh blank_block s₂.heap.buffers),
                );
                disk = st.0 ∙ f.still;
              })
              (λ _.
                Ends-map (IsAllocated s₂) (IsAllocated s) (allocate_block fuel s₂)
                  (λ c s' k. IsAllocated-before s s₂ c s' (st.0 ∙ f.still) k)
                  (allocate_block-Ends fuel s₂ (shorter s s₁ s₂ b fuel f st enough)))))
