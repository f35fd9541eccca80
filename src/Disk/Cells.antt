-- ===== src/Disk/Cells.antt =====
-- Writes inside a file, seen through reads.
use system_t.Base.{
  ℕ, zero, suc, ◌<◌, ◌≡◌, refl, ap, some, List, [], ◌∷◌, arith, ◌==◌, if◌then◌else◌,
}
use system_t.Disk.{length, get_elem?, write_at}

module _ {A : Type 0} (pad v : A) where
  pub get_elem?-write_at :
      (i j : ℕ) (xs : List A)
      → i < length xs
      → get_elem? (write_at pad i v xs) j ≡ (if i == j then some v else get_elem? xs j)
  unfolding write_at
  get_elem?-write_at i j [] h = absurd (omega arith)
  get_elem?-write_at zero zero (x ∷ xs) h = refl
  get_elem?-write_at zero (suc j) (x ∷ xs) h = ground arith
  get_elem?-write_at (suc i) zero (x ∷ xs) h = ground arith
  get_elem?-write_at (suc i) (suc j) (x ∷ xs) h = ground (arith, get_elem?-write_at i j xs)

  pub length-write_at :
      (i : ℕ) (xs : List A) → i < length xs → length (write_at pad i v xs) ≡ length xs
  unfolding write_at
  length-write_at i [] h = absurd (omega arith)
  length-write_at zero (x ∷ xs) h = refl
  length-write_at (suc i) (x ∷ xs) h = ap suc (length-write_at i xs (omega arith))

pub lt-length_of_get_elem? :
    {A : Type 0} (i : ℕ) (xs : List A) (x : A) → get_elem? xs i ≡ some x → i < length xs
lt-length_of_get_elem? i [] x e = absurd (cc)
lt-length_of_get_elem? zero (y ∷ xs) x e = omega arith
lt-length_of_get_elem? (suc i) (y ∷ xs) x e = omega (arith, lt-length_of_get_elem? i xs x e)
