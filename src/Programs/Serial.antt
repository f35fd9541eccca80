-- ===== src/Programs/Serial.antt =====
-- The serial test programs src/st1.cc to src/st5.cc: the code between Begin and End. `old` is the
-- content of a fresh buffer, which the code does not set; what is printed is left out.
use system_t.Base.{ℕ, zero, suc, none, some}
use system_t.Config.{blocksize}
use system_t.Disk.{Block, replicate}
use system_t.Transaction.State.{Pointer, gives, faults, Act, and_then, deref}
use system_t.Transaction.Ending.{begin_end}
use system_t.Transaction.Calls.{
  abort_transaction, allocate_block, read_block, write_block, release_block,
}

infixl 5 ◌>>=◌
abbrev ◌>>=◌ : {A B : Type 0} → Act A → (A → Act B) → Act B
m >>= f = and_then m f

abbrev give : {A : Type 0} → A → Act A
give a s = gives a s

-- memset(buffer, c, BLOCKSIZE)
abbrev filled : ℕ → Block
filled c = replicate blocksize c

unfoldable pub print_block : Pointer → Act (Unit {0})
print_block p s = elim (deref p s.heap) [ none ↦ faults | some v ↦ gives tt s ]

-- The loop of st1.
unfoldable pub allocate_times : ℕ → ℕ → Act (Unit {0})
unfolding and_then
allocate_times fuel zero = give tt
allocate_times fuel (suc n) = do b ← allocate_block fuel; allocate_times fuel n

unfoldable pub st1 : ℕ → Act (Unit {0})
unfolding allocate_times
st1 fuel = allocate_times fuel 5

-- One round of the loop of st2, between Begin and End.
unfoldable pub st2 : ℕ → Block → Act (Unit {0})
unfolding print_block and_then
st2 fuel old = do
  b ← allocate_block fuel
  t ← read_block 1
  printed ← print_block t
  old_b ← write_block b old (filled b'B')
  t' ← read_block b
  print_block t'

-- The loop of st2: two transactions one after the other, each with its own passes.
unfoldable pub st2_main : ℕ → ℕ → Block → Act (Unit {0})
unfolding st2 and_then
st2_main passes fuel old = do
  first ← begin_end passes (st2 fuel old)
  begin_end passes (st2 fuel old)

unfoldable pub st3 : ℕ → Block → Act (Unit {0})
unfolding print_block and_then
st3 fuel old = do
  old₁ ← write_block 1 old (filled b'C')
  nb1 ← allocate_block fuel
  nb2 ← allocate_block fuel
  old₂ ← write_block nb1 old₁ (filled b'D')
  old₃ ← write_block nb2 old₂ (filled b'E')
  released ← release_block 5
  released' ← release_block nb2
  t ← read_block nb1
  printed ← print_block t
  old₄ ← write_block 2 old₃ (filled b'K')
  give tt

-- What st4 and st5 share: blocks 2 and 3 are read, and block 2 is written.
unfoldable pub write_after_read : ℕ → Block → Act (Unit {0})
unfolding print_block and_then
write_after_read c old = do
  t ← read_block 2
  printed ← print_block t
  t' ← read_block 3
  printed' ← print_block t'
  old' ← write_block 2 old (filled c)
  give tt

unfoldable pub st4 : Block → Act (Unit {0})
unfolding write_after_read
st4 old = write_after_read b'F' old

unfoldable pub st5 : Block → Act (Unit {0})
unfolding write_after_read and_then
st5 old = do done ← write_after_read b'Z' old; abort_transaction
