-- ===== src/Transaction/Calls.antt =====
-- src/Transaction.cc: the member functions of Transaction but commit and the destructor. A caller's
-- buffer is passed by its content, and its new content is given back; an exception carries the state
-- that the destructor finds.
use system_t.Base.{
  ℕ, zero, suc, ◌+◌, ◌-◌, ◌^◌, Bool, true, false, ◌&&◌, none, some, List, [], ◌∷◌, ltb, ◌==◌,
  if◌then◌else◌,
}
use system_t.Map.{find, insert, modify}
use system_t.Config.{blocksize, nblocks, maxtimeout}
use system_t.Trq.{Request, Trq, ok, not_ok, die, allocate, read, write, release, restart}
use system_t.Disk.{Block, allocated, unallocated, get_elem?, replicate}
use system_t.Transaction.State.{
  te_abort, te_restart, Locktype, a_lock, r_lock, w_lock, s_lock, Pointer, Mblock, Heap,
  Transaction, gives, throws, waits, faults, spins, Act, ◌>>=◌, new_buffer, delete, deref,
}

unfoldable pub abort_transaction : {A : Type 0} → Act A
abort_transaction s = throws te_abort (record s { error_occured = true })

-- The reply of the monitor, and whether it is OK; a transaction that is told to die aborts.
unfoldable pub ask_tpm : Request → ℕ → Act (Bool × Trq)
unfolding abort_transaction
ask_tpm request blockno s = elim s.replies [
  | [] ↦ waits
  | r ∷ later ↦
      let rq : Trq = record {
        tid = s.tid;
        pid = s.pid;
        request = request;
        reply = ok;
        block_no = blockno;
      } in
      let s' : Transaction = record s { replies = later; sent = rq ∷ s.sent } in
      elim r.reply [
        | die ↦ abort_transaction s'
        | ok ↦ gives (true, r) s'
        | not_ok ↦ gives (false, r) s'
      ]
]

-- 0x1 << last_sleep is undefined from 32 on.
unfoldable pub backoff_sleep : Act (Unit {0})
unfolding abort_transaction
backoff_sleep s =
    let s' : Transaction = record s { last_sleep = s.last_sleep + 1 } in
    if ltb s.last_sleep 32
    then (if ltb maxtimeout (2 ^ s.last_sleep) then abort_transaction s' else gives tt s')
    else faults

unfoldable pub restart_transaction : {A : Type 0} → Act A
unfolding ask_tpm backoff_sleep abort_transaction
restart_transaction s = ask_tpm restart 0 s >>= λ (granted, _) s₁.
    if granted
    then (backoff_sleep s₁ >>= λ _ s₂. throws te_restart (record s₂ { error_occured = true }))
    else abort_transaction s₁

-- A C++ int above 0.
abbrev pub is_positive : ℕ → Bool
is_positive b = ltb 0 b && ltb b (2 ^ 31)

-- Past the end of the index nothing is read into `stat`.
unfoldable pub is_allocated : ℕ → Act Bool
is_allocated blockno s =
    if ltb nblocks blockno then gives false s else elim (get_elem? s.disk.index (blockno - 1)) [
      | none ↦ faults
      | some stat ↦ gives (stat == allocated) s
    ]

abbrev pub drop {ℓ} : {A : Type ℓ} → ℕ → List A → List A
drop zero xs = xs
drop (suc n) [] = []
drop (suc n) (x ∷ xs) = drop n xs

-- The loop of find_free_block over the rest of the index: the new last_free_block, and whether a
-- free block was found.
unfoldable pub next_free : List ℕ → ℕ → ℕ × Bool
next_free [] n = (n, false)
next_free (c ∷ cs) n =
    let rest = next_free cs (n + 1) in if c == unallocated then (n, true) else rest

unfoldable pub find_free_block : Act ℕ
unfolding next_free restart_transaction
find_free_block s =
    let (n, found) = next_free (drop s.last_free_block s.disk.index) (s.last_free_block + 1) in
    let s' : Transaction = record s { last_free_block = n } in
    if found then gives n s' else restart_transaction s'

-- A block of '0' characters.
abbrev pub blank_block : Block
blank_block = replicate blocksize b'0'

-- blockmap[block] = mb
abbrev pub put_mblock : ℕ → Mblock → Heap → Transaction → Transaction
put_mblock block mb h s = record s { blockmap = insert block mb s.blockmap; heap = h }

-- `fuel` bounds the attempts to find a block that nobody contends for.
unfoldable pub allocate_block : ℕ → Act ℕ
unfolding find_free_block ask_tpm new_buffer
allocate_block zero s = spins
allocate_block (suc fuel) s =
    let again = allocate_block fuel in
    (find_free_block s >>= λ fblock s₁.
    (ask_tpm allocate fblock s₁ >>= λ (found, _) s₂.
    if found
    then (let (p, h) = new_buffer blank_block s₂.heap in
        gives fblock (
          put_mblock fblock
            (record { lock = a_lock; data_ = some p; oldval = some p; oldindex = unallocated }) h
            s₂))
    else again s₂))

abbrev pub is_s_lock : Locktype → Bool
is_s_lock s_lock = true
is_s_lock _ = false

-- Access to a block of the store, which must be allocated: the monitor is asked, and a denial
-- restarts the transaction.
unfoldable pub ask_access : Request → ℕ → Act (Unit {0})
unfolding is_allocated ask_tpm restart_transaction abort_transaction
ask_access request block s = is_allocated block s >>= λ known s₁.
    if known
    then (ask_tpm request block s₁ >>= λ (granted, _) s₂.
        if granted then gives tt s₂ else restart_transaction s₂)
    else abort_transaction s₁

-- The pointer that a reader gets.
unfoldable pub read_block : ℕ → Act Pointer
unfolding ask_access new_buffer abort_transaction
read_block block s =
    if is_positive block
    then elim (find block s.blockmap) [
      | some mb ↦ if is_s_lock mb.lock then abort_transaction s else gives mb.data_ s
      | none ↦ ask_access read block s >>= λ _ s₁. elim (get_elem? s₁.disk.store (block - 1)) [
        | none ↦ faults
        | some v ↦
            let (p, h) = new_buffer v s₁.heap in
            gives (some p) (
              put_mblock block
                (record { lock = r_lock; data_ = some p; oldval = some p; oldindex = allocated }) h
                s₁)
      ]
    ]
    else throws te_abort s

-- The read buffer of a block is freed, and only `data_` is set to NULL.
unfoldable pub drop_data : ℕ → Mblock → Act (Unit {0})
unfolding delete
drop_data block mb s = elim mb.data_ [
  | none ↦ gives tt s
  | some p ↦ elim (delete p s.heap) [
    | none ↦ faults
    | some h ↦
        gives tt (record s {
          heap = h;
          blockmap = modify block (λ b. record b { data_ = none }) s.blockmap;
        })
  ]
]

-- A write to a block of the store. At the end of the file nothing is read into `oldval`.
unfoldable pub write_stored : ℕ → Block → Block → Act Block
unfolding ask_access new_buffer
write_stored block oldval newval s = ask_access write block s >>= λ _ s₁.
    (let old : Block = elim (get_elem? s₁.disk.store (block - 1)) [ none ↦ oldval | some v ↦ v ] in
      let (saved_val, h₁) = new_buffer old s₁.heap in
      let (p, h₂) = new_buffer newval h₁ in
      gives old (
        put_mblock block
          (record { lock = w_lock; data_ = some p; oldval = some saved_val; oldindex = allocated })
          h₂ s₁))

-- A write to a block that is in the buffers already.
unfoldable pub write_buffered : Locktype → ℕ → Mblock → Block → Block → Act Block
unfolding drop_data write_stored deref abort_transaction
write_buffered s_lock block mb oldval newval s = abort_transaction s
write_buffered r_lock block mb oldval newval s =
    drop_data block mb s >>= λ _ s₁. write_stored block oldval newval s₁
write_buffered l block mb oldval newval s = elim mb.data_ [
  | none ↦ faults
  | some p ↦ elim (find p s.heap.buffers) [
    | none ↦ faults
    | some v ↦
        gives v (record s { heap = record (s.heap) { buffers = insert p newval s.heap.buffers } })
  ]
]

-- The old content of the block is given back.
unfoldable pub write_block : ℕ → Block → Block → Act Block
unfolding write_buffered write_stored
write_block block oldval newval s =
    if is_positive block
    then elim (find block s.blockmap) [
      | some mb ↦ write_buffered mb.lock block mb oldval newval s
      | none ↦ write_stored block oldval newval s
    ]
    else throws te_abort s

unfoldable pub release_stored : ℕ → Act (Unit {0})
unfolding ask_access new_buffer
release_stored block s = ask_access release block s >>= λ _ s₁.
    elim (get_elem? s₁.disk.store (block - 1)) [
      | none ↦ faults
      | some v ↦
          let (p, h) = new_buffer v s₁.heap in
          gives tt (
            put_mblock block
              (record { lock = s_lock; data_ = some p; oldval = some p; oldindex = allocated }) h
              s₁)
    ]

unfoldable pub release_buffered : Locktype → ℕ → Mblock → Act (Unit {0})
unfolding drop_data release_stored
release_buffered r_lock block mb s = drop_data block mb s >>= λ _ s₁. release_stored block s₁
release_buffered l block mb s =
    gives tt (record s { blockmap = modify block (λ b. record b { lock = s_lock }) s.blockmap })

unfoldable pub release_block : ℕ → Act (Unit {0})
unfolding release_buffered release_stored
release_block block s =
    if is_positive block
    then elim (find block s.blockmap) [
      | some mb ↦ release_buffered mb.lock block mb s
      | none ↦ release_stored block s
    ]
    else throws te_abort s
