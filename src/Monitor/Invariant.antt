-- ===== src/Monitor/Invariant.antt =====
-- What the monitor relies on: every holder of a block has a status, a block that is being written
-- has no readers, and transaction numbers stay below the next one. One lemma for each change of
-- the maps.
use system_t.Base.{
  ℕ, ◌<◌, ◌≡◌, refl, sym, ◌∙◌, ◌⊎◌, inl, inr, Bool, true, false, none, some, List, [], ◌∷◌, arith,
}
use system_t.Map.{
  Map, find, insert, modify, map_values, find-insert, find-modify, find-insert_cases,
  find-modify_cases, find-map_values_cases,
}
use system_t.Monitor.State.{Tstat, Blockholders, Monitor, init}

-- Has the transaction a status?
abbrev pub is_known : ℕ → Map Tstat → Bool
is_known t st = elim (find t st) [ none ↦ false | some s ↦ true ]

abbrev pub AllKnown : Map Tstat → List ℕ → Type 0
AllKnown st [] = Unit
AllKnown st (r ∷ rs) = (is_known r st ≡ true) × AllKnown st rs

pub record HolderOk (st : Map Tstat) (h : Blockholders) : Type 0 where
  pub writer_known : (h.writer ≡ 0) ⊎ (is_known h.writer st ≡ true)
  pub readers_known : AllKnown st h.readers
  pub exclusive : (h.writer ≡ 0) ⊎ (h.readers ≡ [])

-- A property of all the values of a map.
abbrev pub Each : {V : Type 0} → (V → Type 0) → Map V → Type 0
Each {V} P m = (k : ℕ) (v : V) → find k m ≡ some v → P v

-- Two clients never share a transaction, and none has a number that is still to be given out.
pub record ClientsOk (next : ℕ) (clients : Map ℕ) : Type 0 where
  pub issued : Each (λ t. t < next) clients
  pub distinct : (f g t : ℕ) → find f clients ≡ some t → find g clients ≡ some t → f ≡ g

pub record Inv (m : Monitor) : Type 0 where
  pub holders : Each (HolderOk m.status) m.blockmap
  pub ids : (t : ℕ) → is_known t m.status ≡ true → (0 < t) × (t < m.next_tid)
  pub sessions : ClientsOk m.next_tid m.transactions
  pub started : 0 < m.next_tid

-- Every transaction of the first map has a status in the second one too.
abbrev pub Grows : Map Tstat → Map Tstat → Type 0
Grows st st' = (t : ℕ) → is_known t st ≡ true → is_known t st' ≡ true

module _ {V : Type 0} (P : V → Type 0) where
  pub Each-insert : (k : ℕ) (v : V) (m : Map V) → P v → Each P m → Each P (insert k v m)
  Each-insert k v m pv each j w e = elim (find-insert_cases k j v w m e) [
    | inl (_, p) ↦ rw p pv
    | inr (_, p) ↦ each j w p
  ]

  pub Each-modify :
      (k : ℕ) (f : V → V) (m : Map V)
      → ((v : V) → find k m ≡ some v → P (f v))
      → Each P m
      → Each P (modify k f m)
  Each-modify k f m keep each j w e =
      let (v, p, either) = find-modify_cases k j f w m e in
      elim either [ inl (q, r) ↦ rw r (keep v (rw q p)) | inr (_, r) ↦ rw r (each j v p) ]

  pub Each-map_values :
      (f : V → V) (m : Map V) → ((v : V) → P v → P (f v)) → Each P m → Each P (map_values f m)
  Each-map_values f m keep each j w e =
      let (v, p, q) = find-map_values_cases j f w m e in rw q (keep v (each j v p))

pub is_known-modify :
    (t k : ℕ) (f : Tstat → Tstat) (st : Map Tstat) → is_known t (modify k f st) ≡ is_known t st
is_known-modify t k f st = ground (arith, find-modify k t f st)

pub is_known-insert :
    (t k : ℕ) (s : Tstat) (st : Map Tstat)
    → is_known t (insert k s st) ≡ true
    → (t ≡ k) ⊎ (is_known t st ≡ true)
is_known-insert t k s st h = ground (arith, find-insert k t s st)

pub Grows-modify : (k : ℕ) (f : Tstat → Tstat) (st : Map Tstat) → Grows st (modify k f st)
Grows-modify k f st t h = is_known-modify t k f st ∙ h

pub Grows-insert : (k : ℕ) (s : Tstat) (st : Map Tstat) → Grows st (insert k s st)
Grows-insert k s st t h = ground (arith, find-insert k t s st)

module _ (st st' : Map Tstat) (g : Grows st st') where
  pub AllKnown-mono : (rs : List ℕ) → AllKnown st rs → AllKnown st' rs
  AllKnown-mono [] h = tt
  AllKnown-mono (r ∷ rs) h = (g r h.0, AllKnown-mono rs h.1)

  pub HolderOk-mono : {h : Blockholders} → HolderOk st h → HolderOk st' h
  HolderOk-mono {h} ok = record {
    writer_known = elim ok.writer_known [ inl z ↦ inl z | inr k ↦ inr (g h.writer k) ];
    readers_known = AllKnown-mono h.readers ok.readers_known;
    exclusive = ok.exclusive;
  }

  pub Each-mono : (bm : Map Blockholders) → Each (HolderOk st) bm → Each (HolderOk st') bm
  Each-mono bm each k h e = HolderOk-mono (each k h e)

-- The invariant after a change of the locks and of what is known of transactions.
pub Inv-update :
    (m : Monitor) (st : Map Tstat) (bm : Map Blockholders)
    → Inv m
    → ((t : ℕ) → is_known t st ≡ is_known t m.status)
    → Each (HolderOk st) bm
    → Inv (record m { status = st; blockmap = bm })
Inv-update m st bm v same each = record {
  holders = each;
  ids = λ t h. v.ids t (sym (same t) ∙ h);
  sessions = v.sessions;
  started = v.started;
}

-- The invariant after a change of the locks alone.
pub Inv-blockmap :
    (m : Monitor) (bm : Map Blockholders)
    → Inv m
    → Each (HolderOk m.status) bm
    → Inv (record m { blockmap = bm })
Inv-blockmap m bm v each = Inv-update m m.status bm v (λ t. refl) each

-- The invariant after a change of one status.
pub Inv-status :
    (m : Monitor) (k : ℕ) (f : Tstat → Tstat)
    → Inv m
    → Inv (record m { status = modify k f m.status })
Inv-status m k f v =
    Inv-update m (modify k f m.status) m.blockmap v (λ t. is_known-modify t k f m.status)
      (Each-mono m.status _ (Grows-modify k f m.status) m.blockmap v.holders)

pub init-Inv : Inv init
unfolding init find
init-Inv = record {
  holders = λ k h e. absurd (cc);
  ids = λ t h. absurd (cc);
  sessions = record { issued = λ k t e. absurd (cc); distinct = λ f g t e _. absurd (cc) };
  started = omega arith;
}
