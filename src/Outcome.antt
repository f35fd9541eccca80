-- ===== src/Outcome.antt =====
-- How a piece of the program can end: it returns, it calls exit(1), or it does what C++ leaves
-- undefined, such as going through an end iterator. `running` stands for a loop that has used up the
-- rounds which it was given.

pub data Outcome {ℓ} (A : Type ℓ) : Type ℓ where
  returns : A → Outcome A
  exits : Outcome A
  undefined : Outcome A
  running : Outcome A

infixl 5 ◌>>=◌
abbrev pub ◌>>=◌ {ℓ κ} : {A : Type ℓ} {B : Type κ} → Outcome A → (A → Outcome B) → Outcome B
returns a >>= f = f a
exits >>= f = exits
undefined >>= f = undefined
running >>= f = running
