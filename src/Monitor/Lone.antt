-- ===== src/Monitor/Lone.antt =====
-- A transaction of src/Monitor.cc that holds all the locks there are, and asks for more.
use mathlib.Core.Path.{subst}
use system_t.Monitor.Policy.ReaderList.{readers_at}
use system_t.Base.{
  refl, ℕ, ◌≡◌, sym, ◌∙◌, ◌≢◌, ◌⊎◌, inl, inr, some, List, [], ◌∷◌, arith, ◌==◌, Bool-cases,
  Option-cases,
}
use system_t.Map.{find}
use system_t.Trq.{Trq, ok}
use system_t.Monitor.State.{Status, preempted, Tstat, Blockholders, Monitor}
use system_t.Monitor.Policy.Evict.{Member, IsWriter, IsHolder}
use system_t.Monitor.Policy.Entries.{Taken, HolderAt, WriterAt}
use system_t.Monitor.Policy.Verdict.{Refusal}
use system_t.Monitor.Policy.Taking.{WriteTaken, ReadTaken, Refused}
use system_t.Monitor.Readers.{ReadsNone}

-- Nobody else holds a block, it has not been preempted, and it writes none but the listed blocks.
pub record IsAlone (c : ℕ) (written : List ℕ) (m : Monitor) : Type 0 where
  pub tstat : Tstat
  pub status : find c m.status ≡ some tstat
  pub lives : tstat.stat ≢ preempted
  pub only : (b t : ℕ) → HolderAt m b t → t ≡ c
  pub writes : (b : ℕ) → WriterAt m b c → Member b written

module _ (c : ℕ) (written : List ℕ) (m : Monitor) (k : IsAlone c written m) (b now : ℕ)
    (fresh : ¬ Member b written) (stat : Status) (n : stat ≢ preempted) where
  not-IsWriter : (h : Blockholders) (t : ℕ) → find b m.blockmap ≡ some h → t ≡ c → ¬ IsWriter t h
  not-IsWriter h t at same w = fresh (k.writes b (h, at, subst (λ x. IsWriter x h) same w))

  no_Refusal : ¬ Refusal m b c now
  no_Refusal r =
      let same = k.only b r.who (r.holders, r.at, r.holds) in
      elim r.reason [
        | inl (w, _) ↦ not-IsWriter r.holders r.who r.at same w
        | inr (_, _, _, w) ↦ elim w [
          | inl x ↦ not-IsWriter r.holders r.who r.at same x
          | inr x ↦ omega arith
        ]
      ]

  noted_status :
      (L : ℕ → Type 0) (m' : Monitor)
      → Taken L b c stat m m'
      → (s : Tstat) × (find c m'.status ≡ some s) × (s.stat ≢ preempted)
  noted_status L m' w = elim (Option-cases (find c m'.status)) [
    | inl e ↦ absurd (let q = w.known c in let s = k.status in ground arith)
    | inr (s, e) ↦ (s, e, λ p. n (sym (w.noted s e).0 ∙ p))
  ]

  sole :
      (m' : Monitor) (h : Blockholders) (a t : ℕ)
      → find b m'.blockmap ≡ some (record { readers = []; writer = c })
      → a ≡ b
      → find a m'.blockmap ≡ some h
      → IsHolder t h
      → t ≡ c
  sole m' h a t p e q x =
      let is : h ≡ record { readers = []; writer = c } =
        (let q' = subst (λ x. find x m'.blockmap ≡ some h) e q in let z = sym q' ∙ p in cc) in
      elim (subst (IsHolder t) is x) [ inl (_, w) ↦ sym w | inr none_left ↦ absurd none_left ]

  pub written-IsAlone :
      (r : Monitor × Trq)
      → (WriteTaken m b c now stat r ⊎ Refused m b c now stat r)
      → (r.1.reply ≡ ok) × IsAlone c (b ∷ written) r.0
  written-IsAlone r (inr w) = absurd (no_Refusal w.2)
  written-IsAlone r (inl w) =
      let (s, at, l) = noted_status _ r.0 w.2 in
      (
        w.0,
        record {
          tstat = s;
          status = at;
          lives = l;
          only = λ a t (h, f, x). elim (Bool-cases (a == b)) [
            | inl q ↦ sole r.0 h a t w.1 (ground arith) f x
            | inr q ↦ k.only a t (h, sym (w.2.elsewhere a (ground arith)) ∙ f, x)
          ];
          writes = λ a (h, f, x). elim (Bool-cases (a == b)) [
            | inl q ↦ inl (ground arith)
            | inr q ↦ inr (k.writes a (h, sym (w.2.elsewhere a (ground arith)) ∙ f, x))
          ];
        },
      )

  only_before : (a t : ℕ) → WriterAt m a t → t ≡ c
  only_before a t (h, f, z) = k.only a t (h, f, inl z)

  -- A writer after a read was one before.
  kept :
      (m' : Monitor) (a t : ℕ) (h : Blockholders)
      → (find b m'.blockmap ≡ some (record { readers = c ∷ readers_at b m; writer = 0 }))
      → ((x : ℕ) → x ≢ b → find x m'.blockmap ≡ find x m.blockmap)
      → find a m'.blockmap ≡ some h
      → IsWriter t h
      → WriterAt m a t
  kept m' a t h at same f z = elim (Bool-cases (a == b)) [
    | inl q ↦
        let e : a ≡ b = ground arith in
        let f' = subst (λ x. find x m'.blockmap ≡ some h) e f in
        let only : Blockholders = record { readers = c ∷ readers_at b m; writer = 0 } in
        let is : only ≡ h = (let y = sym at ∙ f' in cc) in
        absurd (
          let zero : h.writer ≡ 0 = subst (λ x. x.writer ≡ 0) is refl in
          let p = z.0 in let w = z.1 in omega arith)
    | inr q ↦ (h, sym (same a (ground arith)) ∙ f, z)
  ]

  pub read-IsAlone :
      (r : Monitor × Trq)
      → ((t : ℕ) → t ≢ c → ReadsNone t r.0.blockmap)
      → (ReadTaken m b c now stat r ⊎ Refused m b c now stat r)
      → (r.1.reply ≡ ok) × IsAlone c written r.0
  read-IsAlone r absent (inr w) = absurd (no_Refusal w.2)
  read-IsAlone r absent (inl w) =
      let (s, at, l) = noted_status _ r.0 w.2 in
      (
        w.0,
        record {
          tstat = s;
          status = at;
          lives = l;
          only = λ a t (h, f, x). elim x [
            | inl z ↦ only_before a t (kept r.0 a t h w.1 w.2.elsewhere f z)
            | inr reads ↦ elim (Bool-cases (t == c)) [
              | inl q ↦ ground arith
              | inr q ↦ absurd (absent t (ground arith) a h f reads)
            ]
          ];
          writes = λ a (h, f, z). k.writes a (kept r.0 a c h w.1 w.2.elsewhere f z);
        },
      )
