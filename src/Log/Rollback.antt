-- ===== src/Log/Rollback.antt =====
-- LogManager::rollback of src/LogManager.cc: whether its loop ends, and what it leaves on the disk.
use system_t.Monitor.Returns.{Returns}
use system_t.Log.Scan.{
  scan, collect_back-step, length-reverse, reverse-snoc, scan-map, collect_back-scan,
  collect_back-suc,
}
use mathlib.Core.Path.{subst}
use mathlib.Core.List.{reverse, reverse-cons, reverse-reverse, append-nil}
use mathlib.Core.Option
use system_t.Base.{
  ℕ, zero, suc, ◌<◌, ◌≡◌, refl, sym, ◌∙◌, ap, ◌≢◌, inl, inr, Bool, true, false, not, Option, none,
  some, List, [], ◌∷◌, ◌++◌, arith, ◌==◌, if◌then◌else◌, Bool-cases, Option-cases,
}
use system_t.Outcome.{returns, running}
use system_t.Disk.{Logrecord, Disk, length}
use system_t.Log.Manager.{
  LogManager, collect_back, is_begin, is_end, undo_collected, undo_rec, write_abort_rec, rollback,
}
use system_t.Log.Recovery.{abort_record, log-write_abort_rec, log-undo_rec}

-- A record that does not end the search.
abbrev is_passed : ℕ → Logrecord → Bool
is_passed t r =
    if r.tid == t then (if is_end r.action then false else not (is_begin r.action)) else true

-- At the start of the file the first record is read again and again.
stuck_at_start :
    (t fuel : ℕ) (r : Logrecord) (rest collected : List Logrecord)
    → is_passed t r ≡ true
    → collect_back fuel t (r ∷ rest) 0 collected ≡ running
stuck_at_start t zero r rest collected p = unfold collect_back in refl
stuck_at_start t (suc fuel) r rest collected p =
    collect_back-step t fuel 0 r (r ∷ rest) collected refl
    ∙ ground (
      arith,
      stuck_at_start t fuel r rest collected p,
      stuck_at_start t fuel r rest (collected ++ r ∷ []) p,
    )

scan-none :
    (t : ℕ) (r : Logrecord) (rs : List Logrecord)
    → scan t (r ∷ rs) ≡ none
    → (is_passed t r ≡ true) × (scan t rs ≡ none)
unfolding scan
scan-none t r rs e = elim (Option-cases (scan t rs)) [
  | inl n ↦ (ground arith, n)
  | inr (o, n) ↦ absurd (ground arith)
]

scan-append :
    (t : ℕ) (r : Logrecord) (rs : List Logrecord)
    → scan t (rs ++ r ∷ []) ≡ none
    → is_passed t r ≡ true
scan-append t r [] e = (scan-none t r [] e).0
scan-append t r (x ∷ rs) e = scan-append t r rs (scan-none t x (rs ++ r ∷ []) e).1

collect_back-hangs :
    (t fuel : ℕ) (rs rest collected : List Logrecord)
    → scan t rs ≡ none
    → ((f : ℕ) (c : List Logrecord) → collect_back f t (reverse rs ++ rest) 0 c ≡ running)
    → collect_back fuel t (reverse rs ++ rest) (length rs) collected ≡ running
collect_back-hangs t zero rs rest collected e start = unfold collect_back in refl
collect_back-hangs t (suc fuel) [] rest collected e start = start (suc fuel) collected
collect_back-hangs t (suc fuel) (r ∷ rs) rest collected e start =
    let (p, e') = scan-none t r rs e in
    let start' : (f : ℕ) (c : List Logrecord)
        → collect_back f t (reverse rs ++ r ∷ rest) 0 c ≡ running =
      λ f c.
        subst (λ file. collect_back f t file 0 c ≡ running) (reverse-snoc r rs rest) (start f c) in
    collect_back-suc t fuel r rs rest collected
    ∙ ground (
      arith,
      collect_back-hangs t fuel rs (r ∷ rest) collected e' start',
      collect_back-hangs t fuel rs (r ∷ rest) (collected ++ r ∷ []) e' start',
    )

-- From the whole of a log, as rollback calls it.
from_end :
    (t fuel : ℕ) (file : List Logrecord)
    → collect_back fuel t (reverse (reverse file) ++ []) (length (reverse file)) []
      ≡ collect_back fuel t file (length file) []
from_end t fuel file =
    rw (length-reverse file, append-nil (reverse (reverse file)), reverse-reverse file) refl

-- Where the log holds neither a BEGIN nor an END of the transaction, the loop of rollback goes on
-- for ever: no number of rounds is enough.
pub rollback_hangs :
    (t fuel : ℕ) (l : LogManager) (d : Disk)
    → d.log ≢ []
    → scan t (reverse d.log) ≡ none
    → rollback fuel t l d ≡ running
unfolding rollback
rollback_hangs t fuel l d nonempty e = rw (loop d.log nonempty e) refl
  where
    loop :
        (file : List Logrecord)
        → file ≢ []
        → scan t (reverse file) ≡ none
        → collect_back fuel t file (length file) [] ≡ running
    loop [] n e = absurd (n refl)
    loop (r ∷ rest) n e =
        sym (from_end t fuel (r ∷ rest))
        ∙ collect_back-hangs t fuel (reverse (r ∷ rest)) [] [] e λ f c.
          rw (append-nil (reverse (reverse (r ∷ rest))), reverse-reverse (r ∷ rest))
            (stuck_at_start t f r rest c
              (scan-append t r (reverse rest) (rw (reverse-cons r rest) at e)))

-- The newest record that is collected is one of the transaction.
scan-head :
    (t : ℕ) (rs records : List Logrecord)
    → scan t rs ≡ some (some records)
    → (x : Logrecord) × (xs : List Logrecord) × (records ≡ x ∷ xs) × (x.tid ≡ t)
unfolding scan
scan-head t [] records e = absurd (cc)
scan-head t (r ∷ rs) records e = elim (Bool-cases (r.tid == t)) [
  | inl own ↦ elim (Bool-cases (is_end r.action)) [
    | inl x ↦ absurd (ground arith)
    | inr x ↦ elim (Bool-cases (is_begin r.action)) [
      | inl y ↦ (r, [], ground arith, ground arith)
      | inr y ↦
          let e' : Option.map (Option.map (◌∷◌ r)) (scan t rs) ≡ some (some records) =
            ground arith in
          let (q, at, made) = scan-map e' in
          elim (Option-cases q) [
            | inl n ↦ absurd (ground arith)
            | inr (l, n) ↦ (r, l, ground arith, ground arith)
          ]
    ]
  ]
  | inr other ↦ scan-head t rs records (ground arith)
]

-- The effect of a rollback: the records are undone, and an ABORT goes to the end of the log.
pub record IsRolledBack (t : ℕ) (records : List Logrecord) (d d' : Disk) : Type 0 where
  pub store : d'.store ≡ (undo_rec records d).store
  pub index : d'.index ≡ (undo_rec records d).index
  pub log : d'.log ≡ d.log ++ abort_record t ∷ []

undo_collected-IsRolledBack :
    (t : ℕ) (x : Logrecord) (xs : List Logrecord) (l : LogManager) (d : Disk)
    → x.tid ≡ t
    → Returns (λ r. IsRolledBack t (x ∷ xs) d r.1) (undo_collected (some (x ∷ xs)) l d)
unfolding undo_collected write_abort_rec
undo_collected-IsRolledBack t x xs l d own = record {
  store = refl;
  index = refl;
  log =
      unfold write_abort_rec in
      rw (← own) (
        log-write_abort_rec x.tid l (undo_rec (x ∷ xs) d)
        ∙ ap (λ file. file ++ abort_record x.tid ∷ []) (log-undo_rec (x ∷ xs) d));
}

-- Where the log holds a BEGIN or an END of the transaction, more rounds than the log has records
-- are enough for rollback. After an END it changes nothing; otherwise it undoes the records of the
-- transaction back to its BEGIN, newest first, and appends an ABORT record.
pub rollback-Returns :
    (t fuel : ℕ) (l : LogManager) (d : Disk) (o : Option (List Logrecord))
    → length d.log < fuel
    → scan t (reverse d.log) ≡ some o
    → Returns
        (λ r. elim o [ none ↦ r.1 ≡ d | some records ↦ IsRolledBack t records d r.1 ])
        (rollback fuel t l d)
unfolding rollback
rollback-Returns t fuel l d o enough e = rw found (outcome o e)
  where
    map-id : (o : Option (List Logrecord)) → Option.map (◌++◌ []) o ≡ o
    map-id none = refl
    map-id (some x) = refl

    found : collect_back fuel t d.log (length d.log) [] ≡ returns o
    found =
        sym (from_end t fuel d.log)
        ∙ collect_back-scan t fuel (reverse d.log) [] [] o (omega (arith, length-reverse d.log)) e
        ∙ ap returns (map-id o)

    outcome :
        (o : Option (List Logrecord))
        → scan t (reverse d.log) ≡ some o
        → Returns
            (λ r. elim o [ none ↦ r.1 ≡ d | some records ↦ IsRolledBack t records d r.1 ])
            (undo_collected o l d)
    outcome none e = unfold undo_collected in refl
    outcome (some records) e =
        let (x, xs, made, own) = scan-head t (reverse d.log) records e in
        rw made (undo_collected-IsRolledBack t x xs l d own)
