-- ===== src/Programs/Traces.antt =====
-- The parts of the test programs of src/, and the files.
use system_t.Base.{ℕ, ◌≡◌, refl, Bool, true, inl, inr, Option-cases}
use system_t.Disk.{Block}
use system_t.Transaction.State.{Pointer, Transaction, Act, and_then, deref}
use system_t.Transaction.Calls.{abort_transaction, read_block, write_block, is_positive}
use system_t.Transaction.Leaves.{Leaves, Leaves-bind}
use system_t.Transaction.LeavesCalls.{read_block-Leaves, write_block-Leaves}
use system_t.Programs.Serial.{print_block, write_after_read, st5}
use system_t.Programs.Concurrent.{read_two}

module _ (strict : Bool) where
  -- Code that leaves the files alone wherever it starts.
  abbrev pub AllLeave : {A : Type 0} → Act A → Type 0
  AllLeave m = (s : Transaction) → Leaves strict s (m s)

  pub then_leaves :
      {A B : Type 0} (m : Act A) (f : A → Act B)
      → AllLeave m
      → ((a : A) → AllLeave (f a))
      → AllLeave (and_then m f)
  unfolding and_then
  then_leaves m f p q s = Leaves-bind strict s (m s) f (p s) (λ a t. q a t)

  pub print_block-AllLeave : (p : Pointer) → AllLeave (print_block p)
  unfolding print_block
  print_block-AllLeave p s = elim (Option-cases (deref p s.heap)) [
    | inl e ↦ rw (e, print_block) tt
    | inr (v, e) ↦ rw (e, print_block) refl
  ]

  -- The blocks 1, 2 and 3 of the programs.
  pub read_at : (b : ℕ) → is_positive b ≡ true → AllLeave (read_block b)
  read_at b p s = read_block-Leaves strict b s (λ _. p)

  pub write_at : (b : ℕ) (old new : Block) → is_positive b ≡ true → AllLeave (write_block b old new)
  write_at b old new p s = write_block-Leaves strict b s (λ _. p) old new

  pub read_two-AllLeave : AllLeave read_two
  unfolding read_two
  read_two-AllLeave = then_leaves _ _ (read_at 2 refl) (λ t.
      then_leaves _ _ (print_block-AllLeave t)
        (λ _. then_leaves _ _ (read_at 3 refl) print_block-AllLeave))

  pub write_after_read-AllLeave : (c : ℕ) (old : Block) → AllLeave (write_after_read c old)
  unfolding write_after_read
  write_after_read-AllLeave c old = then_leaves _ _ (read_at 2 refl) (λ t.
      then_leaves _ _ (print_block-AllLeave t) (λ _. then_leaves _ _ (read_at 3 refl) (λ t'.
        then_leaves _ _ (print_block-AllLeave t')
          (λ _. then_leaves _ _ (write_at 2 old _ refl) (λ old' s. refl)))))

  pub st5-AllLeave : (old : Block) → AllLeave (st5 old)
  unfolding st5 abort_transaction
  st5-AllLeave old = then_leaves _ _ (write_after_read-AllLeave b'Z' old) (λ _ s k. (refl, refl))
