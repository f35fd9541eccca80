-- ===== src/Transaction/Refine.antt =====
-- Transaction::commit of src/Transaction.cc on the buffers, beside the writes of Transaction.Commit.
use system_t.Transaction.Calls.{ask_tpm, abort_transaction}
use system_t.Trq.{Request, Trq, ok, end, commit}
use mathlib.Core.Path.{subst}
use system_t.Transaction.Commit.{
  run_ops, DiskOp, Change, change_ops, loop_ops, run_op, allocates, writes, releases, reads,
  commit_ops, end_op,
}
use mathlib.Core.Option
use system_t.Base.{
  ℕ, ◌≡◌, refl, sym, ap, ◌∙◌, inl, inr, true, Option, none, some, List, [], ◌∷◌, ◌++◌, arith,
  Option-cases, if◌then◌else◌,
}
use system_t.Map.{Map, find}
use system_t.Disk.{
  Block, Disk, LogAction, unallocated, lwrite, allocated, lrelease, lallocate, blank, lend, lbegin,
}
use system_t.Log.Manager.{LogManager, put_store, log}
use system_t.Transaction.State.{
  Locktype, a_lock, r_lock, w_lock, s_lock, Mblock, Heap, Transaction, gives, deref, ◌>>=◌, Pointer,
  Act, throws, te_abort,
}
use system_t.Transaction.Ending.{
  commit_mblock, commit_blocks, write_store, log_old, write_index, write_log, commit_transaction,
}

-- What commit does with an entry whose pointers lead to buffers.
unfoldable pub as_change : Locktype → Mblock → Heap → Option Change
as_change a_lock mb h = Option.map allocates (deref mb.data_ h)
as_change w_lock mb h = elim (deref mb.oldval h) [
  | none ↦ none
  | some old ↦ Option.map (writes mb.oldindex old) (deref mb.data_ h)
]
as_change s_lock mb h = Option.map (releases mb.oldindex) (deref mb.oldval h)
as_change r_lock mb h = some reads

unfoldable pub changes : Map Mblock → Heap → Option (List (ℕ × Change))
changes [] h = some []
changes ((b, mb) ∷ rest) h = elim (as_change mb.lock mb h) [
  | none ↦ none
  | some c ↦ Option.map (◌∷◌ (b, c)) (changes rest h)
]

-- The state after some writes.
abbrev pub after : List DiskOp → Transaction → Transaction
after ops s = let (l, d) = run_ops s.tid ops s.logger s.disk in record s { logger = l; disk = d }

run_ops-append :
    (tid : ℕ) (xs ys : List DiskOp) (l : LogManager) (d : Disk)
    → run_ops tid (xs ++ ys) l d ≡ run_ops tid ys (run_ops tid xs l d).0 (run_ops tid xs l d).1
unfolding run_ops
run_ops-append tid [] ys l d = refl
run_ops-append tid (x ∷ xs) ys l d = run_ops-append tid xs ys _ _

write_store-deref :
    (b : ℕ) (p : Pointer) (v : Block) (s : Transaction)
    → deref p s.heap ≡ some v
    → write_store b p s ≡ gives tt (record s { disk = put_store b v s.disk })
unfolding write_store deref
write_store-deref b none v s e = absurd (cc)
write_store-deref b (some p) v s e = rw (e, write_store) refl

log_old-deref :
    (action : LogAction) (b : ℕ) (mb : Mblock) (v : Block) (s : Transaction)
    → deref mb.oldval s.heap ≡ some v
    → log_old action b mb s ≡ gives tt (write_log action b mb.oldindex (some v) s)
unfolding deref log_old
log_old-deref action b mb v s e = elim (Option-cases mb.oldval) [
  | inl n ↦ absurd (ground arith)
  | inr (p, n) ↦
      rw (n, log_old)
        (let e' : find p s.heap.buffers ≡ some v = rw (n, deref) at e in rw (e', log_old) refl)
]

module _ (b : ℕ) (mb : Mblock) (c : Change) (s : Transaction) where
  allocates-after :
      as_change a_lock mb s.heap ≡ some c
      → commit_mblock a_lock b mb s ≡ gives tt (after (change_ops b c) s)
  unfolding as_change commit_mblock change_ops run_ops run_op
  allocates-after e = elim (Option-cases (deref mb.data_ s.heap)) [
    | inl n ↦ absurd (ground arith)
    | inr (v, n) ↦
        let q : allocates v ≡ c = ground arith in
        subst (λ c. commit_mblock a_lock b mb s ≡ gives tt (after (change_ops b c) s)) q
          (write_store-deref b mb.data_ v
            (write_index b allocated (write_log lallocate b blank none s)) n)
  ]

  writes-after :
      as_change w_lock mb s.heap ≡ some c
      → commit_mblock w_lock b mb s ≡ gives tt (after (change_ops b c) s)
  unfolding as_change commit_mblock change_ops run_ops run_op
  writes-after e = elim (Option-cases (deref mb.oldval s.heap)) [
    | inl n ↦ absurd (ground arith)
    | inr (old, n) ↦ elim (Option-cases (deref mb.data_ s.heap)) [
      | inl k ↦ absurd (ground arith)
      | inr (v, k) ↦
          let q : writes mb.oldindex old v ≡ c = ground arith in
          subst (λ c. commit_mblock w_lock b mb s ≡ gives tt (after (change_ops b c) s)) q
            (ap (λ r. r >>= λ _ s₁. write_store b mb.data_ s₁) (log_old-deref lwrite b mb old s n)
              ∙ write_store-deref b mb.data_ v (write_log lwrite b mb.oldindex (some old) s) k)
    ]
  ]

  releases-after :
      as_change s_lock mb s.heap ≡ some c
      → commit_mblock s_lock b mb s ≡ gives tt (after (change_ops b c) s)
  unfolding as_change commit_mblock change_ops run_ops run_op
  releases-after e = elim (Option-cases (deref mb.oldval s.heap)) [
    | inl n ↦ absurd (ground arith)
    | inr (old, n) ↦
        let q : releases mb.oldindex old ≡ c = ground arith in
        subst (λ c. commit_mblock s_lock b mb s ≡ gives tt (after (change_ops b c) s)) q
          (ap (λ r. r >>= λ _ s₁. gives tt (write_index b unallocated s₁))
            (log_old-deref lrelease b mb old s n))
  ]

  reads-after :
      as_change r_lock mb s.heap ≡ some c
      → commit_mblock r_lock b mb s ≡ gives tt (after (change_ops b c) s)
  unfolding as_change commit_mblock change_ops run_ops run_op
  reads-after e =
      let q : reads ≡ c = ground arith in
      subst (λ c. commit_mblock r_lock b mb s ≡ gives tt (after (change_ops b c) s)) q refl

  commit_mblock-after :
      (l : Locktype)
      → as_change l mb s.heap ≡ some c
      → commit_mblock l b mb s ≡ gives tt (after (change_ops b c) s)
  commit_mblock-after a_lock e = allocates-after e
  commit_mblock-after w_lock e = writes-after e
  commit_mblock-after s_lock e = releases-after e
  commit_mblock-after r_lock e = reads-after e

pub commit_blocks-after :
    (bm : Map Mblock) (cs : List (ℕ × Change)) (s : Transaction)
    → changes bm s.heap ≡ some cs
    → commit_blocks bm s ≡ gives tt (after (loop_ops cs) s)
unfolding changes commit_blocks loop_ops
commit_blocks-after [] cs s e =
    let q : [] ≡ cs = ground arith in
    subst (λ cs. commit_blocks [] s ≡ gives tt (after (loop_ops cs) s)) q (unfold run_ops in refl)
commit_blocks-after ((b, mb) ∷ rest) cs s e = elim (Option-cases (as_change mb.lock mb s.heap)) [
  | inl n ↦ absurd (ground arith)
  | inr (c, n) ↦ elim (Option-cases (changes rest s.heap)) [
    | inl k ↦ absurd (ground arith)
    | inr (more, k) ↦
        let q : (b, c) ∷ more ≡ cs = ground arith in
        subst (λ cs. commit_blocks ((b, mb) ∷ rest) s ≡ gives tt (after (loop_ops cs) s)) q
          (ap (λ r. r >>= λ _ s₁. commit_blocks rest s₁) (commit_mblock-after b mb c s mb.lock n)
            ∙ commit_blocks-after rest more (after (change_ops b c) s) k
            ∙ ap (λ r. gives tt (record s { logger = r.0; disk = r.1 }))
                (sym (run_ops-append s.tid (change_ops b c) (loop_ops more) s.logger s.disk)))
  ]
]

run_ops-commit_ops :
    (tid : ℕ) (cs : List (ℕ × Change)) (l : LogManager) (d : Disk)
    → run_ops tid (commit_ops cs) l d ≡ (
        let (l₁, d₁) = log tid lbegin 0 blank none l d in
        let (l₂, d₂) = run_ops tid (loop_ops cs) l₁ d₁ in log tid lend 0 blank none l₂ d₂)
unfolding commit_ops run_ops run_op
run_ops-commit_ops tid cs l d = run_ops-append tid (loop_ops cs) (end_op ∷ []) _ _

-- The replies of the monitor that let a commit through.
pub record LetsCommit (s : Transaction) (later : List Trq) : Type 0 where
  pub first : Trq
  pub last : Trq
  pub replies : s.replies ≡ first ∷ last ∷ later
  pub commit_ok : first.reply ≡ ok
  pub end_ok : last.reply ≡ ok

pub ask_tpm-ok :
    (request : Request) (b : ℕ) (s : Transaction) (r : Trq) (later : List Trq)
    → s.replies ≡ r ∷ later
    → r.reply ≡ ok
    → ask_tpm request b s
      ≡ gives
          (true, r)
          (record s {
            replies = later;
            sent =
                record { tid = s.tid; pid = s.pid; request = request; reply = ok; block_no = b }
                ∷ s.sent;
          })
unfolding ask_tpm
ask_tpm-ok request b s r later e k = rw (e, ask_tpm) (simp k)

-- The request that a transaction sends.
abbrev pub request_of : Transaction → Request → Trq
request_of s r = record { tid = s.tid; pid = s.pid; request = r; reply = ok; block_no = 0 }

-- If every entry of the block map has its buffers and the monitor grants COMMIT and END, then commit
-- returns, has made the writes of commit_ops on log, index and store, in that order, and nothing else
-- has changed but the two messages.
pub commit_transaction-after :
    (s : Transaction) (cs : List (ℕ × Change)) (later : List Trq)
    → changes s.blockmap s.heap ≡ some cs
    → LetsCommit s later
    → commit_transaction s
      ≡ gives tt (record (after (commit_ops cs) s) {
        replies = later;
        sent = request_of s end ∷ request_of s commit ∷ s.sent;
      })
unfolding commit_transaction commit_ops
commit_transaction-after s cs later known granted =
    ap (λ r. r >>= λ (g, _) s₁. if g then write_all s₁ else abort_transaction s₁)
      (ask_tpm-ok commit 0 s granted.first (granted.last ∷ later) granted.replies granted.commit_ok)
    ∙ ap (λ r. r >>= λ _ s₂. finish s₂)
        (commit_blocks-after s.blockmap cs (write_log lbegin 0 blank none asked)
          (unfold write_log in known))
    ∙ ap (λ r. r >>= λ (g, _) s₃. if g then gives tt s₃ else throws te_abort s₃)
        (ask_tpm-ok end 0 written granted.last later refl granted.end_ok)
    ∙ ap
        (λ r. gives tt (record s {
          logger = r.0;
          disk = r.1;
          replies = later;
          sent = request_of s end ∷ request_of s commit ∷ s.sent;
        }))
        (sym (run_ops-commit_ops s.tid cs s.logger s.disk))
  where
    asked : Transaction
    asked = record s { replies = granted.last ∷ later; sent = request_of s commit ∷ s.sent }

    finish : Act (Unit {0})
    finish s₂ = ask_tpm end 0 (write_log lend 0 blank none s₂) >>= λ (g, _) s₃.
        if g then gives tt s₃ else throws te_abort s₃

    write_all : Act (Unit {0})
    write_all s₁ =
        commit_blocks s₁.blockmap (write_log lbegin 0 blank none s₁) >>= λ _ s₂. finish s₂

    written : Transaction
    written =
        write_log lend 0 blank none (after (loop_ops cs) (write_log lbegin 0 blank none asked))
