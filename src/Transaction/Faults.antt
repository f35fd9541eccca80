-- ===== src/Transaction/Faults.antt =====
-- Transaction::write of src/Transaction.cc on a block that was read, when the monitor denies it.
use system_t.Transaction.Dangling.{free_blocks-faults}
use system_t.Transaction.Refine.{ask_tpm-ok}
use system_t.Config.{nblocks, maxtimeout}
use system_t.Transaction.Calls.{
  write_block, write_buffered, drop_data, write_stored, ask_access, is_positive, ask_tpm,
  restart_transaction, backoff_sleep, abort_transaction, is_allocated,
}
use system_t.Transaction.Ending.{destroy}
use system_t.Base.{
  ℕ, zero, suc, ◌+◌, ◌-◌, ◌^◌, ◌≤◌, ◌<◌, ◌≡◌, refl, ap, ◌∙◌, Bool, true, false, none, some, List,
  ◌∷◌, arith, ltb, if◌then◌else◌,
}
use system_t.Map.{find, modify, erase, find-erase, find-modify}
use system_t.Trq.{Request, Trq, not_ok, ok, restart, write}
use system_t.Disk.{Block, get_elem?, allocated}
use system_t.Transaction.State.{
  TransactionException, te_restart, r_lock, Mblock, Transaction, gives, throws, faults, Act, ◌>>=◌,
  delete,
}

-- The state after a request.
abbrev pub asked : Request → ℕ → List Trq → Transaction → Transaction
asked request b later s = record s {
  replies = later;
  sent = record { tid = s.tid; pid = s.pid; request = request; reply = ok; block_no = b } ∷ s.sent;
}

ask_tpm-not_ok :
    (request : Request) (b : ℕ) (s : Transaction) (r : Trq) (later : List Trq)
    → s.replies ≡ r ∷ later
    → r.reply ≡ not_ok
    → ask_tpm request b s ≡ gives (false, r) (asked request b later s)
unfolding ask_tpm
ask_tpm-not_ok request b s r later e k = rw (e, ask_tpm) (simp k)

short_sleep : (n : ℕ) → n < 6 → ltb maxtimeout (2 ^ n) ≡ false
short_sleep zero h = refl
short_sleep (suc zero) h = refl
short_sleep (suc (suc zero)) h = refl
short_sleep (suc (suc (suc zero))) h = refl
short_sleep (suc (suc (suc (suc zero)))) h = refl
short_sleep (suc (suc (suc (suc (suc zero))))) h = refl
short_sleep (suc (suc (suc (suc (suc (suc n)))))) h = absurd (omega arith)

-- The state that a restart throws.
abbrev restarted : Transaction → Transaction
restarted s = record s { last_sleep = s.last_sleep + 1; error_occured = true }

restart_transaction-throws :
    {A : Type 0} (s : Transaction) (r : Trq) (later : List Trq)
    → s.replies ≡ r ∷ later
    → r.reply ≡ ok
    → s.last_sleep < 6
    → restart_transaction {A = A} s ≡ throws te_restart (restarted (asked restart 0 later s))
unfolding restart_transaction
restart_transaction-throws {A} s r later e k awake =
    ap (λ x. x >>= λ a s₁. go_on a.0 s₁) (ask_tpm-ok restart 0 s r later e k)
    ∙ ap (λ x. x >>= λ _ s₂. thrown s₂) (slept (asked restart 0 later s) awake)
  where
    thrown : Act A
    thrown s₂ = throws te_restart (record s₂ { error_occured = true })

    go_on : Bool → Act A
    go_on g s₁ = if g then (backoff_sleep s₁ >>= λ _ s₂. thrown s₂) else abort_transaction s₁

    slept :
        (s : Transaction)
        → s.last_sleep < 6
        → backoff_sleep s ≡ gives tt (record s { last_sleep = s.last_sleep + 1 })
    slept s h = unfold backoff_sleep in rw (short_sleep s.last_sleep h) (ground arith)

is_allocated-known :
    (block : ℕ) (s : Transaction)
    → block ≤ nblocks
    → get_elem? s.disk.index (block - 1) ≡ some allocated
    → is_allocated block s ≡ gives true s
unfolding is_allocated
is_allocated-known block s small known =
    let inside : ltb nblocks block ≡ false = ground arith in
    rw (inside, is_allocated) (rw known refl)

-- A denial of access to an allocated block restarts the transaction.
ask_access-denied :
    (request : Request) (block : ℕ) (s : Transaction) (denial leave : Trq) (later : List Trq)
    → block ≤ nblocks
    → get_elem? s.disk.index (block - 1) ≡ some allocated
    → s.replies ≡ denial ∷ leave ∷ later
    → denial.reply ≡ not_ok
    → leave.reply ≡ ok
    → s.last_sleep < 6
    → ask_access request block s
      ≡ throws te_restart
          (restarted (asked restart 0 later (asked request block (leave ∷ later) s)))
unfolding ask_access
ask_access-denied request block s denial leave later small known says n y awake =
    ap (λ x. x >>= λ k s₁. on_known k s₁) (is_allocated-known block s small known)
    ∙ ap (λ x. x >>= λ a s₂. on_reply a.0 s₂)
        (ask_tpm-not_ok request block s denial (leave ∷ later) says n)
    ∙ restart_transaction-throws (asked request block (leave ∷ later) s) leave later refl y awake
  where
    on_reply : Bool → Act (Unit {0})
    on_reply g s₂ = if g then gives tt s₂ else restart_transaction s₂

    on_known : Bool → Act (Unit {0})
    on_known k s₁ =
        if k then (ask_tpm request block s₁ >>= λ a s₂. on_reply a.0 s₂) else abort_transaction s₁

write_stored-throws :
    (block : ℕ) (oldval newval : Block) (s t : Transaction) (e : TransactionException)
    → ask_access write block s ≡ throws e t
    → write_stored block oldval newval s ≡ throws e t
unfolding write_stored
write_stored-throws block oldval newval s t e h = rw (h, write_stored) refl

-- The entry of a block that was read, and the state after its buffer is freed.
abbrev pub was_read : ℕ → ℕ → Mblock
was_read p oldindex = record { lock = r_lock; data_ = some p; oldval = some p; oldindex = oldindex }

abbrev dropped : ℕ → ℕ → Transaction → Transaction
dropped block p s = record s {
  heap = record (s.heap) { buffers = erase p s.heap.buffers };
  blockmap = modify block (λ b. record b { data_ = none }) s.blockmap;
}

drop_data-dropped :
    (block p oldindex : ℕ) (v : Block) (s : Transaction)
    → find p s.heap.buffers ≡ some v
    → drop_data block (was_read p oldindex) s ≡ gives tt (dropped block p s)
unfolding drop_data delete
drop_data-dropped block p oldindex v s live = rw (live, drop_data, delete) refl

if_true : {A : Type 0} (b : Bool) (x y : A) → b ≡ true → (if b then x else y) ≡ x
if_true true x y e = refl
if_true false x y e = absurd (cc)

-- A transaction has read an allocated block, and is denied to write it: it restarts, and the
-- destructor frees the read buffer a second time.
pub denied_write_frees_twice :
    (block p oldindex : ℕ) (v oldval newval : Block) (s : Transaction) (denial leave : Trq)
    (later : List Trq)
    → is_positive block ≡ true
    → block ≤ nblocks
    → find block s.blockmap ≡ some (was_read p oldindex)
    → find p s.heap.buffers ≡ some v
    → get_elem? s.disk.index (block - 1) ≡ some allocated
    → s.replies ≡ denial ∷ leave ∷ later
    → denial.reply ≡ not_ok
    → leave.reply ≡ ok
    → s.last_sleep < 6
    → (s' : Transaction) × (write_block block oldval newval s ≡ throws te_restart s')
      × (destroy s' ≡ faults)
unfolding write_block write_buffered destroy
denied_write_frees_twice block p oldindex v oldval newval s denial leave later pos small at live
      known says n y awake =
    (
      thrown,
      if_true (is_positive block) _ _ pos
          ∙ ap
              (λ o. elim o [
                | some mb ↦ write_buffered mb.lock block mb oldval newval s
                | none ↦ write_stored block oldval newval s
              ])
              at
          ∙ ap (λ x. x >>= λ _ s₁. write_stored block oldval newval s₁)
              (drop_data-dropped block p oldindex v s live)
          ∙ write_stored-throws block oldval newval (dropped block p s) thrown te_restart (
              ask_access-denied write block (dropped block p s) denial leave later small known says
                n y awake),
      free_blocks-faults block p oldindex thrown.blockmap thrown
          (ground
            (arith, find-modify block block (λ (b : Mblock). record b { data_ = none }) s.blockmap))
          (ground (arith, find-erase p p s.heap.buffers)),
    )
  where
    thrown : Transaction
    thrown =
        restarted (asked restart 0 later (asked write block (leave ∷ later) (dropped block p s)))
