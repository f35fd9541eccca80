-- ===== src/Log/Broken.antt =====
-- The first half of doRecovery of src/LogManager.cc: which transactions of a log are broken, and with which records.
use mathlib.Core.List.{append_assoc, append-nil}
use system_t.Base.{
  ℕ, ◌≡◌, refl, sym, ◌∙◌, ap, Bool, false, ◌&&◌, ◌||◌, Option, none, some, inl, inr, List, [], ◌∷◌,
  ◌++◌, arith, ◌==◌, if◌then◌else◌, Bool-cases, Option-cases,
}
use system_t.Map.{Map, find, insert, find-nil, find-insert, find-erase, find-modify}
use system_t.Disk.{Logrecord}
use system_t.Log.Manager.{is_stop, sort_record, broken}

-- The records of one transaction.
pub own : ℕ → List Logrecord → List Logrecord
own t [] = []
own t (r ∷ rs) = if r.tid == t then r ∷ own t rs else own t rs

abbrev pub is_stop_of : ℕ → Logrecord → Bool
is_stop_of t r = (r.tid == t) && is_stop r.action

pub has_stop : ℕ → List Logrecord → Bool
has_stop t [] = false
has_stop t (r ∷ rs) = is_stop_of t r || has_stop t rs

-- The records of a transaction after its last END or ABORT.
pub since_stop : ℕ → List Logrecord → List Logrecord
since_stop t [] = []
since_stop t (r ∷ rs) =
    if has_stop t rs then since_stop t rs else if is_stop_of t r then own t rs else own t (r ∷ rs)

-- A transaction without records is not kept.
abbrev pub as_entry : List Logrecord → Option (List Logrecord)
as_entry [] = none
as_entry (r ∷ rs) = some (r ∷ rs)

abbrev extend : Option (List Logrecord) → List Logrecord → Option (List Logrecord)
extend none rs = as_entry rs
extend (some l) rs = some (l ++ rs)

abbrev records_of : Option (List Logrecord) → List Logrecord
records_of none = []
records_of (some l) = l

-- One round of the loop, seen through find.
pub find-sort_record :
    (t : ℕ) (r : Logrecord) (bts : Map (List Logrecord))
    → find t (sort_record r bts) ≡ (
        if r.tid == t
        then (if is_stop r.action then none else some (records_of (find t bts) ++ r ∷ []))
        else find t bts)
unfolding sort_record
find-sort_record t r bts = elim (Option-cases (find r.tid bts)) [
  | inl e ↦
      rw (e, sort_record)
        (elim (Bool-cases (is_stop r.action)) [
          | inl s ↦
              rw s (
                ground
                  (arith, find-erase r.tid t (insert r.tid [] bts), find-insert r.tid t [] bts))
          | inr s ↦ rw s (
              ground (
                arith,
                find-modify r.tid t (λ records. records ++ r ∷ []) (insert r.tid [] bts),
                find-insert r.tid t [] bts,
              ))
        ])
  | inr (l, e) ↦
      rw (e, sort_record)
        (elim (Bool-cases (is_stop r.action)) [
          | inl s ↦ rw s (ground (arith, find-erase r.tid t bts))
          | inr s ↦ rw s (ground (arith, find-modify r.tid t (λ records. records ++ r ∷ []) bts))
        ])
]

extend-cons :
    (o : Option (List Logrecord)) (r : Logrecord) (rs : List Logrecord)
    → extend (some (records_of o ++ r ∷ [])) rs ≡ extend o (r ∷ rs)
extend-cons none r rs = refl
extend-cons (some l) r rs = ap some (append_assoc l (r ∷ []) rs)

extend-nil : (o : Option (List Logrecord)) → o ≡ extend o []
extend-nil none = refl
extend-nil (some l) = ap some (sym (append-nil l))

-- Reading a log into a map that holds records already.
find-broken :
    (t : ℕ) (bts : Map (List Logrecord)) (log : List Logrecord)
    → find t (broken bts log)
      ≡ (if has_stop t log then as_entry (since_stop t log) else extend (find t bts) (own t log))
unfolding broken has_stop since_stop own
find-broken t bts [] = extend-nil (find t bts)
find-broken t bts (r ∷ rs) =
    find-broken t (sort_record r bts) rs ∙ (elim (Bool-cases (has_stop t rs)) [
      | inl h ↦ rw h (elim (Bool-cases (is_stop_of t r)) [ inl s ↦ rw s refl | inr s ↦ rw s refl ])
      | inr h ↦
          rw (h, find-sort_record t r bts)
            (elim (Bool-cases (r.tid == t)) [
              | inl e ↦ rw e (elim (Bool-cases (is_stop r.action)) [
                | inl s ↦ rw s refl
                | inr s ↦ rw s (extend-cons (find t bts) r (own t rs))
              ])
              | inr e ↦ rw e refl
            ])
    ])

since_stop-own :
    (t : ℕ) (log : List Logrecord) → has_stop t log ≡ false → own t log ≡ since_stop t log
unfolding has_stop since_stop own
since_stop-own t [] h = refl
since_stop-own t (r ∷ rs) h = elim (Bool-cases (is_stop_of t r)) [
  | inl s ↦ absurd (ground arith)
  | inr s ↦ elim (Bool-cases (has_stop t rs)) [
    | inl k ↦ absurd (ground arith)
    | inr k ↦ rw (s, k) refl
  ]
]

-- What doRecovery collects: for each transaction the records after its last END or ABORT, and no
-- entry for a transaction that has none.
pub find-broken-since_stop :
    (t : ℕ) (log : List Logrecord) → find t (broken [] log) ≡ as_entry (since_stop t log)
find-broken-since_stop t log = find-broken t [] log ∙ (elim (Bool-cases (has_stop t log)) [
  | inl h ↦ rw h refl
  | inr h ↦ rw (h, find-nil {V = List Logrecord} t) (ap as_entry (since_stop-own t log h))
])
