-- ===== src/Programs/Retries.antt =====
-- The test programs of src/, when they are started again and when they abort.
use system_t.Base.{ℕ, zero, suc, ◌≡◌, refl, ◌≢◌, true, false}
use system_t.Disk.{Block}
use system_t.Transaction.State.{
  Transaction, Ran, gives, throws, waits, faults, ends, spins, Act, and_then, ◌>>=◌,
}
use system_t.Transaction.Calls.{abort_transaction, read_block, write_block, release_block}
use system_t.Transaction.Ending.{attempt, begin_end}
use system_t.Transaction.LeavesCalls.{
  allocate_block-Leaves, read_block-Leaves, write_block-Leaves, release_block-Leaves,
}
use system_t.Transaction.Traceless.{Fails, OnePass, begin_end-OnePass, attempt-Fails}
use system_t.Programs.Serial.{allocate_times, st1, st2, st3, write_after_read, st4, st5}
use system_t.Programs.Concurrent.{ct1, ct2, ct3}
use system_t.Programs.Traces.{
  AllLeave, then_leaves, print_block-AllLeave, read_two-AllLeave, write_after_read-AllLeave,
  st5-AllLeave,
}

-- The code of st2 and st3 writes to the blocks that it has allocated, whatever their numbers.
any_write : (b : ℕ) (old new : Block) → AllLeave false (write_block b old new)
any_write b old new s = write_block-Leaves false b s (λ e. absurd (cc)) old new

any_read : (b : ℕ) → AllLeave false (read_block b)
any_read b s = read_block-Leaves false b s (λ e. absurd (cc))

any_release : (b : ℕ) → AllLeave false (release_block b)
any_release b s = release_block-Leaves false b s (λ e. absurd (cc))

allocate_times-AllLeave : (fuel n : ℕ) → AllLeave false (allocate_times fuel n)
unfolding allocate_times
allocate_times-AllLeave fuel zero s = refl
allocate_times-AllLeave fuel (suc n) s =
    then_leaves false _ _ (allocate_block-Leaves false fuel) (λ b. allocate_times-AllLeave fuel n) s

st2-AllLeave : (fuel : ℕ) (old : Block) → AllLeave false (st2 fuel old)
unfolding st2
st2-AllLeave fuel old = then_leaves false _ _ (allocate_block-Leaves false fuel) (λ b.
    then_leaves false _ _ (any_read 1) (λ t.
      then_leaves false _ _ (print_block-AllLeave false t) (λ _.
        then_leaves false _ _ (any_write b old _)
          (λ _. then_leaves false _ _ (any_read b) (print_block-AllLeave false)))))

st3-AllLeave : (fuel : ℕ) (old : Block) → AllLeave false (st3 fuel old)
unfolding st3
st3-AllLeave fuel old = then_leaves false _ _ (any_write 1 old _) (λ old₁.
    then_leaves false _ _ (allocate_block-Leaves false fuel) (λ nb1.
      then_leaves false _ _ (allocate_block-Leaves false fuel) (λ nb2.
        then_leaves false _ _ (any_write nb1 old₁ _) (λ old₂.
          then_leaves false _ _ (any_write nb2 old₂ _) (λ old₃.
            then_leaves false _ _ (any_release 5) (λ _.
              then_leaves false _ _ (any_release nb2) (λ _.
                then_leaves false _ _ (any_read nb1) (λ t.
                  then_leaves false _ _ (print_block-AllLeave false t)
                    (λ _. then_leaves false _ _ (any_write 2 old₃ _) (λ _ s. refl))))))))))

ct1-AllLeave : (old : Block) → AllLeave false (ct1 old)
unfolding ct1
ct1-AllLeave old =
    then_leaves false _ _ (read_two-AllLeave false)
      (λ _. then_leaves false _ _ (any_write 1 old _) (λ _ s. refl))

ct3-AllLeave : (old : Block) → AllLeave false (ct3 old)
unfolding ct3
ct3-AllLeave old =
    then_leaves false _ _ (any_write 1 old _)
      (λ old₁. then_leaves false _ _ (any_write 2 old₁ _) (λ _ s. refl))

-- The programs by their names, and the code between Begin and End.
pub data TestProgram : Type 0 where
  is_st1 is_st2 is_st3 is_st4 is_st5 is_ct1 is_ct2 is_ct3 : TestProgram

abbrev pub body_of : TestProgram → ℕ → Block → Act (Unit {0})
body_of is_st1 fuel old = st1 fuel
body_of is_st2 fuel old = st2 fuel old
body_of is_st3 fuel old = st3 fuel old
body_of is_st4 fuel old = st4 old
body_of is_st5 fuel old = st5 old
body_of is_ct1 fuel old = ct1 old
body_of is_ct2 fuel old = ct2
body_of is_ct3 fuel old = ct3 old

body_of-AllLeave : (p : TestProgram) (fuel : ℕ) (old : Block) → AllLeave false (body_of p fuel old)
unfolding st1 st4 ct2
body_of-AllLeave is_st1 fuel old = allocate_times-AllLeave fuel 5
body_of-AllLeave is_st2 fuel old = st2-AllLeave fuel old
body_of-AllLeave is_st3 fuel old = st3-AllLeave fuel old
body_of-AllLeave is_st4 fuel old = write_after_read-AllLeave false b'F' old
body_of-AllLeave is_st5 fuel old = st5-AllLeave false old
body_of-AllLeave is_ct1 fuel old = ct1-AllLeave old
body_of-AllLeave is_ct2 fuel old = read_two-AllLeave false
body_of-AllLeave is_ct3 fuel old = ct3-AllLeave old

-- Each test program, whatever the monitor replies and however often it is started again: if it comes
-- to its End, the files then hold what a single pass of its code makes of the files before Begin.
pub test_program-OnePass :
    (p : TestProgram) (passes fuel : ℕ) (old : Block) (s s' : Transaction)
    → begin_end passes (body_of p fuel old) s ≡ gives tt s'
    → OnePass (body_of p fuel old) s s'
test_program-OnePass p passes fuel old s s' =
    begin_end-OnePass false (body_of p fuel old) (body_of-AllLeave p fuel old) passes s s'

st5-quits : (old : Block) (s : Transaction) (a : Unit {0}) (t : Transaction) → st5 old s ≢ gives a t
unfolding st5 and_then abort_transaction
st5-quits old s a t e = quits (write_after_read b'Z' old s) e
  where
    quits : (r : Ran (Unit {0})) → (r >>= λ _ s'. abort_transaction s') ≢ gives a t
    quits (gives b u) e = cc
    quits (throws x u) e = cc
    quits waits e = cc
    quits faults e = cc
    quits ends e = cc
    quits spins e = cc

-- A pass of it fails.
pub st5-Fails : (old : Block) (s : Transaction) → Fails true s (attempt (st5 old) s)
st5-Fails old = attempt-Fails true (st5 old) (st5-AllLeave true old) (st5-quits old)
