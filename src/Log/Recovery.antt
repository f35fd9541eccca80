-- ===== src/Log/Recovery.antt =====
-- LogManager::doRecovery of src/LogManager.cc as a whole.
use mathlib.Core.List.{append-nil, append_assoc}
use system_t.Monitor.Returns.{Returns, Returns-map}
use system_t.Base.{
  ℕ, ◌≡◌, refl, sym, ◌∙◌, ap, ◌⊎◌, inl, inr, ◌≢◌, none, some, List, [], ◌∷◌, ◌++◌, arith,
  Bool-cases, Option-cases,
}
use system_t.Map.{
  Map, find, insert, Entries, Entries-map, Entries-insert, Entries-erase, Entries-modify,
}
use system_t.Outcome.{returns}
use system_t.Disk.{
  LogAction, labort, lwrite, lrelease, Logrecord, zero_record, Disk, length, write_at,
}
use system_t.Log.Manager.{
  LogManager, undo_action, undo_rec, write_abort_rec, seek_end, is_stop, sort_record, broken,
  repair, do_recovery,
}
use system_t.Log.Broken.{find-sort_record}

-- The records under a number are of that transaction; a list that is kept is not empty.
abbrev HeadOk : ℕ → List Logrecord → Type 0
HeadOk t [] = Unit
HeadOk t (r ∷ rs) = r.tid ≡ t

abbrev pub IsEntry : ℕ → List Logrecord → Type 0
IsEntry t l = HeadOk t l × (l ≢ [])

-- The list of transaction `k` may be empty.
abbrev IsEntryBut : ℕ → ℕ → List Logrecord → Type 0
IsEntryBut k t l = HeadOk t l × ((t ≡ k) ⊎ (l ≢ []))

HeadOk-snoc : (l : List Logrecord) (r : Logrecord) → HeadOk r.tid l → IsEntry r.tid (l ++ r ∷ [])
HeadOk-snoc [] r h = (refl, λ e. cc)
HeadOk-snoc (x ∷ l) r h = (h, λ e. cc)

Entries-known :
    (k : ℕ) (bts : Map (List Logrecord))
    → Entries IsEntry bts
    → Entries (IsEntryBut k) (elim (find k bts) [ none ↦ insert k [] bts | some records ↦ bts ])
Entries-known k bts h = elim (Option-cases (find k bts)) [
  | inl e ↦
      rw e
        (Entries-insert IsEntry (IsEntryBut k) k [] (λ j w p. (p.0, inr p.1)) (tt, inl refl) bts h)
  | inr (l, e) ↦ rw e (Entries-map IsEntry (IsEntryBut k) (λ j w p. (p.0, inr p.1)) bts h)
]

not_at : (k j : ℕ) (l : List Logrecord) → j ≢ k → IsEntryBut k j l → IsEntry j l
not_at k j l n (h, inl e) = absurd (n e)
not_at k j l n (h, inr f) = (h, f)

sort_record-Entries :
    (r : Logrecord) (bts : Map (List Logrecord))
    → Entries IsEntry bts
    → Entries IsEntry (sort_record r bts)
unfolding sort_record
sort_record-Entries r bts h = elim (Bool-cases (is_stop r.action)) [
  | inl s ↦
      rw s (
        Entries-erase (IsEntryBut r.tid) IsEntry r.tid (not_at r.tid) _ (Entries-known r.tid bts h))
  | inr s ↦ rw s (
      Entries-modify (IsEntryBut r.tid) IsEntry r.tid (λ records. records ++ r ∷ []) (not_at r.tid)
        (λ l p. HeadOk-snoc l r p.0) _ (Entries-known r.tid bts h))
]

pub broken-Entries :
    (bts : Map (List Logrecord)) (log : List Logrecord)
    → Entries IsEntry bts
    → Entries IsEntry (broken bts log)
unfolding broken
broken-Entries bts [] h = h
broken-Entries bts (r ∷ rs) h = broken-Entries (sort_record r bts) rs (sort_record-Entries r bts h)

-- The record that write_abort_rec writes, and one for each broken transaction.
abbrev pub abort_record : ℕ → Logrecord
abort_record tid = record zero_record { tid = tid; action = labort }

pub aborts : Map (List Logrecord) → List Logrecord
aborts [] = []
aborts ((t, l) ∷ m) = abort_record t ∷ aborts m

pub write_at-length :
    {A : Type 0} (pad v : A) (xs : List A) → write_at pad (length xs) v xs ≡ xs ++ v ∷ []
unfolding write_at
write_at-length pad v [] = refl
write_at-length pad v (x ∷ xs) = ap (◌∷◌ x) (write_at-length pad v xs)

log-undo_action : (a : LogAction) (r : Logrecord) (d : Disk) → (undo_action a r d).log ≡ d.log
unfolding undo_action
log-undo_action lrelease r d = ground arith
log-undo_action lwrite r d = refl
log-undo_action a r d = refl

pub log-undo_rec : (rs : List Logrecord) (d : Disk) → (undo_rec rs d).log ≡ d.log
unfolding undo_rec
log-undo_rec [] d = refl
log-undo_rec (r ∷ rs) d = log-undo_rec rs (undo_action r.action r d) ∙ log-undo_action r.action r d

pub log-write_abort_rec :
    (tid : ℕ) (l : LogManager) (d : Disk)
    → (write_abort_rec tid (seek_end l d) d).1.log ≡ d.log ++ abort_record tid ∷ []
unfolding write_abort_rec
log-write_abort_rec tid l d = write_at-length zero_record (abort_record tid) d.log

-- The repairs return, and note each broken transaction as aborted at the end of the log.
log-repair :
    (bts : Map (List Logrecord)) (l : LogManager) (d : Disk)
    → Entries IsEntry bts
    → Returns (λ r. r.1.log ≡ d.log ++ aborts bts) (repair bts l d)
unfolding repair aborts
log-repair [] l d h = sym (append-nil d.log)
log-repair ((t, []) ∷ m) l d h = absurd (h.0.1 refl)
log-repair ((t, r ∷ rs) ∷ m) l d h =
    let d' = undo_rec (r ∷ rs) d in
    let (l'', d'') = write_abort_rec r.tid (seek_end l d') d' in
    Returns-map (λ p. p.1.log ≡ d''.log ++ aborts m) _ (repair m l'' d'')
      (λ p e.
        e
        ∙ rw (log-write_abort_rec r.tid l d', log-undo_rec (r ∷ rs) d, h.0.0)
            (append_assoc d.log (abort_record t ∷ []) (aborts m)))
      (log-repair m l'' d'' h.1)

pub broken-append :
    (bts : Map (List Logrecord)) (xs ys : List Logrecord)
    → broken bts (xs ++ ys) ≡ broken (broken bts xs) ys
unfolding broken
broken-append bts [] ys = refl
broken-append bts (x ∷ xs) ys = broken-append (sort_record x bts) xs ys

aborts-clear :
    (t : ℕ) (m bts : Map (List Logrecord))
    → (find t m ≡ none → find t bts ≡ none)
    → find t (broken bts (aborts m)) ≡ none
unfolding broken aborts find
aborts-clear t [] bts h = h refl
aborts-clear t ((k, l) ∷ m) bts h =
    aborts-clear t m (sort_record (abort_record k) bts)
      λ gone. ground (arith, find-sort_record t (abort_record k) bts, h)

Map-nil : (m : Map (List Logrecord)) → ((t : ℕ) → find t m ≡ none) → m ≡ []
unfolding find
Map-nil [] h = refl
Map-nil ((k, v) ∷ m) h = absurd (ground (arith, h k))

-- Recovery returns. It appends an ABORT record for each broken transaction to the log, and after
-- it no transaction is broken, so that another recovery changes nothing.
pub do_recovery-completes :
    (l : LogManager) (d : Disk)
    → Returns
        (λ r.
          (r.1.log ≡ d.log ++ aborts (broken [] d.log))
          × ((l' : LogManager) → do_recovery l' r.1 ≡ returns (l', r.1)))
        (do_recovery l d)
unfolding do_recovery
do_recovery-completes l d =
    Returns-map _ _ (repair (broken [] d.log) l d)
      (λ r e. (
        e,
        λ l'.
            let all_clear : broken [] r.1.log ≡ [] =
              rw (e, broken-append [] d.log (aborts (broken [] d.log)))
                (Map-nil _ λ t. aborts-clear t (broken [] d.log) (broken [] d.log) (λ n. n)) in
            rw all_clear (unfold repair in refl),
      ))
      (log-repair (broken [] d.log) l d (broken-Entries [] d.log tt))
