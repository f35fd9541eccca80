-- ===== src/Log/Scan.antt =====
-- The loop of LogManager::rollback of src/LogManager.cc, beside a search of the log newest first.
use mathlib.Core.Path.{subst}
use mathlib.Core.List.{reverse, reverse-cons, append_assoc}
use mathlib.Core.Option
use system_t.Base.{
  ℕ, zero, suc, ◌+◌, ◌-◌, ◌<◌, ◌≡◌, refl, sym, ◌∙◌, ap, inl, inr, Option, none, some, List, [], ◌∷◌,
  ◌++◌, arith, ◌==◌, if◌then◌else◌, Bool-cases,
}
use system_t.Outcome.{Outcome, returns}
use system_t.Disk.{Logrecord, length, get_elem?}
use system_t.Log.Manager.{collect_back, is_begin, is_end}

-- What is to be found, in a log that is read newest first: nothing of use (`none`), an END, or the
-- records of the transaction back to its BEGIN.
unfoldable pub scan : ℕ → List Logrecord → Option (Option (List Logrecord))
scan t [] = none
scan t (r ∷ rs) =
    if r.tid == t
    then (if is_end r.action
        then some none
        else if is_begin r.action
        then some (some (r ∷ []))
        else Option.map (Option.map (◌∷◌ r)) (scan t rs))
    else scan t rs

length-append : (xs ys : List Logrecord) → length (xs ++ ys) ≡ length ys + length xs
length-append [] ys = omega arith
length-append (x ∷ xs) ys = omega (arith, length-append xs ys)

pub length-reverse : (rs : List Logrecord) → length (reverse rs) ≡ length rs
length-reverse [] = refl
length-reverse (r ∷ rs) =
    ap length (reverse-cons r rs)
    ∙ omega (arith, length-append (reverse rs) (r ∷ []), length-reverse rs)

get_elem?-length :
    (xs : List Logrecord) (r : Logrecord) (rest : List Logrecord)
    → get_elem? (xs ++ r ∷ rest) (length xs) ≡ some r
get_elem?-length [] r rest = refl
get_elem?-length (x ∷ xs) r rest = get_elem?-length xs r rest

get_elem?-reverse :
    (r : Logrecord) (rs rest : List Logrecord)
    → get_elem? (reverse rs ++ r ∷ rest) (length rs) ≡ some r
get_elem?-reverse r rs rest = rw (← length-reverse rs) (get_elem?-length (reverse rs) r rest)

-- The record at the end of the part that is still to be read.
pub reverse-snoc :
    (r : Logrecord) (rs rest : List Logrecord) → reverse (r ∷ rs) ++ rest ≡ reverse rs ++ r ∷ rest
reverse-snoc r rs rest = rw (reverse-cons r rs) (append_assoc (reverse rs) (r ∷ []) rest)

-- One round of the loop.
pub collect_back-step :
    (t fuel pos : ℕ) (r : Logrecord) (file collected : List Logrecord)
    → get_elem? file (pos - 1) ≡ some r
    → collect_back (suc fuel) t file pos collected ≡ (
        if r.tid == t
        then (if is_end r.action
            then returns none
            else if is_begin r.action
            then returns (some (collected ++ r ∷ []))
            else collect_back fuel t file (pos - 1) (collected ++ r ∷ []))
        else collect_back fuel t file (pos - 1) collected)
unfolding collect_back
collect_back-step t fuel pos r file collected e = rw (e, collect_back) refl

-- The same, where the records `r ∷ rs` are still to be read.
pub collect_back-suc :
    (t fuel : ℕ) (r : Logrecord) (rs rest collected : List Logrecord)
    → collect_back (suc fuel) t (reverse (r ∷ rs) ++ rest) (length (r ∷ rs)) collected ≡ (
        if r.tid == t
        then (if is_end r.action
            then returns none
            else if is_begin r.action
            then returns (some (collected ++ r ∷ []))
            else collect_back fuel t (reverse rs ++ r ∷ rest) (length rs) (collected ++ r ∷ []))
        else collect_back fuel t (reverse rs ++ r ∷ rest) (length rs) collected)
collect_back-suc t fuel r rs rest collected =
    subst (λ file. collect_back (suc fuel) t file (length (r ∷ rs)) collected ≡ after (length rs))
      (sym (reverse-snoc r rs rest))
      (subst (λ pos. collect_back (suc fuel) t file_read (length (r ∷ rs)) collected ≡ after pos)
        back
        (collect_back-step t fuel (length (r ∷ rs)) r file_read collected (
          subst (λ pos. get_elem? file_read pos ≡ some r) (sym back)
            (get_elem?-reverse r rs rest))))
  where
    file_read : List Logrecord
    file_read = reverse rs ++ r ∷ rest

    back : length (r ∷ rs) - 1 ≡ length rs
    back = omega arith

    after : ℕ → Outcome (Option (List Logrecord))
    after pos =
        if r.tid == t
        then (if is_end r.action
            then returns none
            else if is_begin r.action
            then returns (some (collected ++ r ∷ []))
            else collect_back fuel t file_read pos (collected ++ r ∷ []))
        else collect_back fuel t file_read pos collected

map-cons_append :
    (collected : List Logrecord) (r : Logrecord) (o : Option (List Logrecord))
    → Option.map (◌++◌ (collected ++ r ∷ [])) o ≡ Option.map (◌++◌ collected) (Option.map (◌∷◌ r) o)
map-cons_append collected r none = refl
map-cons_append collected r (some l) = ap some (append_assoc collected (r ∷ []) l)

-- A later result of the search is one for the records that are left.
pub scan-map :
    {o : Option (Option (List Logrecord))} {r : Logrecord} {p : Option (List Logrecord)}
    → Option.map (Option.map (◌∷◌ r)) o ≡ some p
    → (q : Option (List Logrecord)) × (o ≡ some q) × (p ≡ Option.map (◌∷◌ r) q)
scan-map {o} {r} {p} e = go o e
  where
    go :
        (o : Option (Option (List Logrecord)))
        → Option.map (Option.map (◌∷◌ r)) o ≡ some p
        → (q : Option (List Logrecord)) × (o ≡ some q) × (p ≡ Option.map (◌∷◌ r) q)
    go none e = absurd (cc)
    go (some q) e = (q, refl, cc)

-- If there is an END or a BEGIN of the transaction, a round for each record is enough, and the loop
-- returns what the search finds.
pub collect_back-scan :
    (t fuel : ℕ) (rs rest collected : List Logrecord) (o : Option (List Logrecord))
    → length rs < fuel
    → scan t rs ≡ some o
    → collect_back fuel t (reverse rs ++ rest) (length rs) collected
      ≡ returns (Option.map (◌++◌ collected) o)
unfolding scan
collect_back-scan t zero rs rest collected o f e = absurd (omega arith)
collect_back-scan t (suc fuel) [] rest collected o f e = absurd (cc)
collect_back-scan t (suc fuel) (r ∷ rs) rest collected o f e =
    collect_back-suc t fuel r rs rest collected ∙ (elim (Bool-cases (r.tid == t)) [
      | inl own ↦ rw own (elim (Bool-cases (is_end r.action)) [
        | inl x ↦ rw x (let found : none ≡ o = ground arith in rw (← found) refl)
        | inr x ↦ rw x (elim (Bool-cases (is_begin r.action)) [
          | inl y ↦ rw y (let found : some (r ∷ []) ≡ o = ground arith in rw (← found) refl)
          | inr y ↦
              let e' : Option.map (Option.map (◌∷◌ r)) (scan t rs) ≡ some o = ground arith in
              let (q, at, made) = scan-map e' in
              rw (y, made)
                (collect_back-scan t fuel rs (r ∷ rest) (collected ++ r ∷ []) q (omega arith) at
                  ∙ ap returns (map-cons_append collected r q))
        ])
      ])
      | inr other ↦
          rw other (collect_back-scan t fuel rs (r ∷ rest) collected o (omega arith) (ground arith))
    ])
