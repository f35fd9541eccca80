-- ===== src/Transaction/Dangling.antt =====
-- The destructor of src/Transaction.cc on a block map with a pointer to a buffer that is freed already.
use mathlib.Core.Path.{subst}
use system_t.Transaction.Ending.{free_blocks, free_pointer, is_same}
use system_t.Base.{
  ℕ, ◌≡◌, refl, ◌⊎◌, inl, inr, Bool, true, false, none, some, [], ◌∷◌, arith, ◌==◌, if◌then◌else◌,
  Bool-cases, Option-cases,
}
use system_t.Map.{Map, find, erase, find-erase}
use system_t.Transaction.State.{
  r_lock, Pointer, Mblock, Transaction, Ran, gives, faults, Act, ◌>>=◌, delete,
}

-- No buffer is allocated at an address.
abbrev IsFree : ℕ → Transaction → Type 0
IsFree p s = find p s.heap.buffers ≡ none

-- A piece of the destructor faults, or leaves free what was free.
abbrev FaultsOrKeeps : Ran (Unit {0}) → Transaction → Type 0
FaultsOrKeeps r s =
    (r ≡ faults) ⊎ ((s' : Transaction) × (r ≡ gives tt s') × ((p : ℕ) → IsFree p s → IsFree p s'))

bind_faults :
    (p : ℕ) (s : Transaction) (r : Ran (Unit {0})) (f : Act (Unit {0}))
    → FaultsOrKeeps r s
    → IsFree p s
    → ((s' : Transaction) → IsFree p s' → f s' ≡ faults)
    → (r >>= λ _ s'. f s') ≡ faults
bind_faults p s r f (inl e) free k = rw e refl
bind_faults p s r f (inr (s', e, keep)) free k = rw e (k s' (keep p free))

free_pointer-cases : (q : Pointer) (s : Transaction) → FaultsOrKeeps (free_pointer q s) s
unfolding free_pointer delete
free_pointer-cases none s = inr (s, refl, λ p f. f)
free_pointer-cases (some q) s = elim (Option-cases (find q s.heap.buffers)) [
  | inl e ↦ inl (rw (e, free_pointer, delete) refl)
  | inr (v, e) ↦ inr (
    record s { heap = record (s.heap) { buffers = erase q s.heap.buffers } },
    rw (e, free_pointer, delete) refl,
    λ p f. ground (arith, find-erase q p s.heap.buffers),
  )
]

-- An entry whose data_ is NULL and whose old value is freed already.
abbrev dangling : ℕ → ℕ → Mblock
dangling p oldindex = record { lock = r_lock; data_ = none; oldval = some p; oldindex = oldindex }

free_dangling : (p oldindex : ℕ) (s : Transaction) → IsFree p s → free_pointer (some p) s ≡ faults
unfolding free_pointer delete
free_dangling p oldindex s f = rw (f, free_pointer, delete) refl

pub free_blocks-faults :
    (b p oldindex : ℕ) (bm : Map Mblock) (s : Transaction)
    → find b bm ≡ some (dangling p oldindex)
    → IsFree p s
    → free_blocks bm s ≡ faults
unfolding free_blocks find
free_blocks-faults b p oldindex [] s e f = absurd (cc)
free_blocks-faults b p oldindex ((k, mb) ∷ rest) s e f = elim (Bool-cases (k == b)) [
  | inl here ↦
      let same : dangling p oldindex ≡ mb = ground arith in
      subst (λ mb. free_blocks ((k, mb) ∷ rest) s ≡ faults) same
        (rw (free_dangling p oldindex s f) refl)
  | inr there ↦
      bind_faults p s (if is_same mb.oldval mb.data_ then gives tt s else free_pointer mb.oldval s)
        _ (first_keeps (is_same mb.oldval mb.data_)) f
        (λ s₁ f₁.
          bind_faults p s₁ (free_pointer mb.data_ s₁) _ (free_pointer-cases mb.data_ s₁) f₁
            (λ s₂ f₂. free_blocks-faults b p oldindex rest s₂ (rw (there, find) at e) f₂))
]
  where
    first_keeps :
        (same : Bool) → FaultsOrKeeps (if same then gives tt s else free_pointer mb.oldval s) s
    first_keeps true = inr (s, refl, λ p f. f)
    first_keeps false = free_pointer-cases mb.oldval s
