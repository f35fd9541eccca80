-- ===== src/Map.antt =====
-- The `std::map` of the program with numbers for keys, an association list in ascending key order.
-- Clients see `find` and the laws; the entries in order are for the loops that walk a map.
use mathlib.Core.Option
use mathlib.Core.Path.{subst}
use system_t.Base.{
  ℕ, ◌≡◌, refl, sym, ◌≢◌, ◌⊎◌, inl, inr, Option, none, some, List, [], ◌∷◌, arith, Option-cases,
  Bool-cases, ltb, ◌==◌, if◌then◌else◌,
}

abbrev pub Map {ℓ} : Type ℓ → Type ℓ
Map V = List (ℕ × V)

module _ {ℓ} {V : Type ℓ} where
  -- m.find(k)
  unfoldable pub find : ℕ → Map V → Option V
  find k [] = none
  find k ((j, v) ∷ m) = if j == k then some v else find k m

  -- m[k] = v
  unfoldable pub insert : ℕ → V → Map V → Map V
  insert k v [] = (k, v) ∷ []
  insert k v ((j, w) ∷ m) =
      if j == k then (k, v) ∷ m else if ltb k j then (k, v) ∷ (j, w) ∷ m else (j, w) ∷ insert k v m

  -- m.erase(k)
  unfoldable pub erase : ℕ → Map V → Map V
  erase k [] = []
  erase k ((j, v) ∷ m) = let rest = erase k m in if j == k then rest else (j, v) ∷ rest

  -- An assignment through the iterator that m.find(k) returned.
  unfoldable pub modify : ℕ → (V → V) → Map V → Map V
  modify k f [] = []
  modify k f ((j, v) ∷ m) = (j, if j == k then f v else v) ∷ modify k f m

  -- A loop from m.begin() to m.end() that assigns to each value.
  unfoldable pub map_values : (V → V) → Map V → Map V
  map_values f [] = []
  map_values f ((j, v) ∷ m) = (j, f v) ∷ map_values f m

  pub find-insert :
      (k j : ℕ) (v : V) (m : Map V) → find j (insert k v m) ≡ (if k == j then some v else find j m)
  unfolding find insert
  find-insert k j v [] = refl
  find-insert k j v ((i, w) ∷ m) = ground (arith, find-insert k j v m)

  pub find-erase : (k j : ℕ) (m : Map V) → find j (erase k m) ≡ (if k == j then none else find j m)
  unfolding find erase
  find-erase k j [] = ground arith
  find-erase k j ((i, w) ∷ m) = ground (arith, find-erase k j m)

  pub find-modify :
      (k j : ℕ) (f : V → V) (m : Map V)
      → find j (modify k f m) ≡ (if k == j then Option.map f (find j m) else find j m)
  unfolding find modify
  find-modify k j f [] = ground arith
  find-modify k j f ((i, w) ∷ m) = ground (arith, find-modify k j f m)

  pub find-map_values :
      (j : ℕ) (f : V → V) (m : Map V) → find j (map_values f m) ≡ Option.map f (find j m)
  unfolding find map_values
  find-map_values j f [] = refl
  find-map_values j f ((i, w) ∷ m) = ground (arith, find-map_values j f m)

module _ {V : Type 0} where
  -- Where a value of the changed map comes from.
  pub find-insert_cases :
      (k j : ℕ) (v w : V) (m : Map V)
      → find j (insert k v m) ≡ some w
      → ((k ≡ j) × (w ≡ v)) ⊎ ((k ≢ j) × (find j m ≡ some w))
  find-insert_cases k j v w m e = ground (arith, find-insert k j v m)

  pub find-erase_cases :
      (k j : ℕ) (w : V) (m : Map V) → find j (erase k m) ≡ some w → (k ≢ j) × (find j m ≡ some w)
  find-erase_cases k j w m e = ground (arith, find-erase k j m)

  pub find-modify_cases :
      (k j : ℕ) (f : V → V) (w : V) (m : Map V)
      → find j (modify k f m) ≡ some w
      → (v : V) × (find j m ≡ some v) × (((k ≡ j) × (w ≡ f v)) ⊎ ((k ≢ j) × (w ≡ v)))
  find-modify_cases k j f w m e = elim (Option-cases (find j m)) [
    | inl p ↦ absurd (ground (arith, find-modify k j f m))
    | inr (v, p) ↦ (v, p, ground (arith, find-modify k j f m))
  ]

  pub find-map_values_cases :
      (j : ℕ) (f : V → V) (w : V) (m : Map V)
      → find j (map_values f m) ≡ some w
      → (v : V) × (find j m ≡ some v) × (w ≡ f v)
  find-map_values_cases j f w m e = elim (Option-cases (find j m)) [
    | inl p ↦ absurd (ground (arith, find-map_values j f m))
    | inr (v, p) ↦ (v, p, ground (arith, find-map_values j f m))
  ]

pub find-nil {ℓ} : {V : Type ℓ} (k : ℕ) → find {V = V} k [] ≡ none
unfolding find
find-nil k = refl

pub ruleset map_laws = (find-nil, find-insert, find-erase, find-modify, find-map_values)

-- A property of all the entries.
abbrev pub Entries : {V : Type 0} → (ℕ → V → Type 0) → Map V → Type 0
Entries P [] = Unit
Entries P ((k, v) ∷ m) = P k v × Entries P m

module _ {V : Type 0} (P Q : ℕ → V → Type 0) where
  pub Entries-map : ((j : ℕ) (v : V) → P j v → Q j v) → (m : Map V) → Entries P m → Entries Q m
  Entries-map keep [] h = tt
  Entries-map keep ((j, v) ∷ m) h = (keep j v h.0, Entries-map keep m h.1)

  pub Entries-erase :
      (k : ℕ)
      → ((j : ℕ) (v : V) → j ≢ k → P j v → Q j v)
      → (m : Map V) → Entries P m
      → Entries Q (erase k m)
  unfolding erase
  Entries-erase k keep [] h = tt
  Entries-erase k keep ((j, v) ∷ m) h = elim (Bool-cases (j == k)) [
    | inl e ↦ rw e (Entries-erase k keep m h.1)
    | inr e ↦ rw e (keep j v (ground arith) h.0, Entries-erase k keep m h.1)
  ]

  pub Entries-modify :
      (k : ℕ) (f : V → V)
      → ((j : ℕ) (v : V) → j ≢ k → P j v → Q j v)
      → ((v : V) → P k v → Q k (f v))
      → (m : Map V) → Entries P m
      → Entries Q (modify k f m)
  unfolding modify
  Entries-modify k f keep at [] h = tt
  Entries-modify k f keep at ((j, v) ∷ m) h = elim (Bool-cases (j == k)) [
    | inl e ↦ rw e (
      let same : j ≡ k = ground arith in
          subst (λ i. Q i (f v)) (sym same) (at v (subst (λ i. P i v) same h.0)),
      Entries-modify k f keep at m h.1,
    )
    | inr e ↦ rw e (keep j v (ground arith) h.0, Entries-modify k f keep at m h.1)
  ]

  pub Entries-insert :
      (k : ℕ) (v : V)
      → ((j : ℕ) (w : V) → P j w → Q j w)
      → Q k v
      → (m : Map V) → Entries P m
      → Entries Q (insert k v m)
  unfolding insert
  Entries-insert k v keep q [] h = (q, tt)
  Entries-insert k v keep q ((j, w) ∷ m) h = elim (Bool-cases (j == k)) [
    | inl e ↦ rw e (q, Entries-map keep m h.1)
    | inr e ↦ rw e (elim (Bool-cases (ltb k j)) [
      | inl y ↦ rw y (q, (keep j w h.0, Entries-map keep m h.1))
      | inr y ↦ rw y (keep j w h.0, Entries-insert k v keep q m h.1)
    ])
  ]
