-- ===== src/Programs/Concurrent.antt =====
-- The concurrent test programs src/ct1.cc to src/ct3.cc: the code between Begin and End. The calls of
-- sleep() change nothing that the program can see.
use system_t.Config.{blocksize}
use system_t.Disk.{Block, replicate}
use system_t.Transaction.State.{gives, Act, and_then}
use system_t.Transaction.Calls.{read_block, write_block}
use system_t.Programs.Serial.{print_block}

infixl 5 ◌>>=◌
abbrev ◌>>=◌ : {A B : Type 0} → Act A → (A → Act B) → Act B
m >>= f = and_then m f

-- Blocks 2 and 3 are read.
unfoldable pub read_two : Act (Unit {0})
unfolding print_block and_then
read_two = do t ← read_block 2; printed ← print_block t; t' ← read_block 3; print_block t'

unfoldable pub ct1 : Block → Act (Unit {0})
unfolding read_two and_then
ct1 old = do done ← read_two; old' ← write_block 1 old (replicate blocksize b'G'); (λ s. gives tt s)

unfoldable pub ct2 : Act (Unit {0})
unfolding read_two
ct2 = read_two

unfoldable pub ct3 : Block → Act (Unit {0})
unfolding and_then
ct3 old = do
  old₁ ← write_block 1 old (replicate blocksize b'H')
  old₂ ← write_block 2 old₁ (replicate blocksize b'I')
  (λ s. gives tt s)
