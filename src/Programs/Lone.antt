-- ===== src/Programs/Lone.antt =====
-- The test programs of src/, when no other one runs: what they ask the monitor for.
use system_t.Base.{ℕ, zero, suc, ◌+◌, ◌<◌, ◌≢◌, List, inl, inr, Option-cases}
use system_t.Config.{trid_mod}
use system_t.Trq.{Trq}
use system_t.Disk.{Block}
use system_t.Monitor.State.{Monitor}
use system_t.Monitor.Invariant.{Inv}
use system_t.Monitor.Policy.Entries.{HolderAt}
use system_t.Transaction.State.{Transaction, Pointer, deref}
use system_t.Transaction.Calls.{read_block, write_block, release_block, abort_transaction}
use system_t.Transaction.Asking.{Gives}
use system_t.Transaction.Orderly.{
  read_block-StaysOrderly, write_block-StaysOrderly, release_block-StaysOrderly,
}
use system_t.Transaction.OrderlyAllocate.{allocate_block-StaysOrderly}
use system_t.Transaction.Client.{KeepsOrder, then_keeps, IsFresh, IsGranted, lone_client}
use system_t.Programs.Serial.{
  print_block, allocate_times, st1, st2, st3, write_after_read, st4, st5,
}
use system_t.Programs.Concurrent.{read_two, ct1, ct2, ct3}
use system_t.Programs.Retries.{
  TestProgram, is_st1, is_st2, is_st3, is_st4, is_st5, is_ct1, is_ct2, is_ct3, body_of,
}

module _ (c : ℕ) (base : List Trq) where
  reading : (b : ℕ) → KeepsOrder c base (read_block b)
  reading b written s k = read_block-StaysOrderly c base written b s k

  writing : (b : ℕ) (old new : Block) → KeepsOrder c base (write_block b old new)
  writing b old new written s k = write_block-StaysOrderly c base written b s k old new

  releasing : (b : ℕ) → KeepsOrder c base (release_block b)
  releasing b written s k = release_block-StaysOrderly c base written b s k

  printing : (p : Pointer) → KeepsOrder c base (print_block p)
  unfolding print_block
  printing p written s k = elim (Option-cases (deref p s.heap)) [
    | inl e ↦ rw (e, print_block) tt
    | inr (v, e) ↦ rw (e, print_block) (written, k)
  ]

  read_two-KeepsOrder : KeepsOrder c base read_two
  unfolding read_two
  read_two-KeepsOrder =
      then_keeps c base _ _ (reading 2)
        (λ t. then_keeps c base _ _ (printing t) (λ _. then_keeps c base _ _ (reading 3) printing))

  write_after_read-KeepsOrder : (a : ℕ) (old : Block) → KeepsOrder c base (write_after_read a old)
  unfolding write_after_read
  write_after_read-KeepsOrder a old = then_keeps c base _ _ (reading 2) (λ t.
      then_keeps c base _ _ (printing t) (λ _. then_keeps c base _ _ (reading 3) (λ t'.
        then_keeps c base _ _ (printing t')
          (λ _. then_keeps c base _ _ (writing 2 old _) (λ _ written s k. (written, k))))))

  allocate_times-KeepsOrder : (fuel n : ℕ) → KeepsOrder c base (allocate_times fuel n)
  unfolding allocate_times
  allocate_times-KeepsOrder fuel zero written s k = (written, k)
  allocate_times-KeepsOrder fuel (suc n) written s k =
      then_keeps c base _ _ (allocate_block-StaysOrderly c base fuel)
        (λ b. allocate_times-KeepsOrder fuel n) written s k

  st2-KeepsOrder : (fuel : ℕ) (old : Block) → KeepsOrder c base (st2 fuel old)
  unfolding st2
  st2-KeepsOrder fuel old = then_keeps c base _ _ (allocate_block-StaysOrderly c base fuel) (λ b.
      then_keeps c base _ _ (reading 1) (λ t. then_keeps c base _ _ (printing t) (λ _.
        then_keeps c base _ _ (writing b old _) (λ _. then_keeps c base _ _ (reading b) printing))))

  st3-KeepsOrder : (fuel : ℕ) (old : Block) → KeepsOrder c base (st3 fuel old)
  unfolding st3
  st3-KeepsOrder fuel old = then_keeps c base _ _ (writing 1 old _) (λ old₁.
      then_keeps c base _ _ (allocate_block-StaysOrderly c base fuel) (λ nb1.
        then_keeps c base _ _ (allocate_block-StaysOrderly c base fuel) (λ nb2.
          then_keeps c base _ _ (writing nb1 old₁ _) (λ old₂.
            then_keeps c base _ _ (writing nb2 old₂ _) (λ old₃.
              then_keeps c base _ _ (releasing 5) (λ _. then_keeps c base _ _ (releasing nb2) (λ _.
                then_keeps c base _ _ (reading nb1) (λ t. then_keeps c base _ _ (printing t) (λ _.
                  then_keeps c base _ _ (writing 2 old₃ _) (λ _ written s k. (written, k)))))))))))

  ct1-KeepsOrder : (old : Block) → KeepsOrder c base (ct1 old)
  unfolding ct1
  ct1-KeepsOrder old =
      then_keeps c base _ _ read_two-KeepsOrder
        (λ _. then_keeps c base _ _ (writing 1 old _) (λ _ written s k. (written, k)))

  ct3-KeepsOrder : (old : Block) → KeepsOrder c base (ct3 old)
  unfolding ct3
  ct3-KeepsOrder old =
      then_keeps c base _ _ (writing 1 old _)
        (λ old₁. then_keeps c base _ _ (writing 2 old₁ _) (λ _ written s k. (written, k)))

  st5-KeepsOrder : (old : Block) → KeepsOrder c base (st5 old)
  unfolding st5 abort_transaction
  st5-KeepsOrder old =
      then_keeps c base _ _ (write_after_read-KeepsOrder b'Z' old) (λ _ written s k. tt)

  body_of-KeepsOrder :
      (p : TestProgram) (fuel : ℕ) (old : Block) → KeepsOrder c base (body_of p fuel old)
  unfolding st1 st4 ct2
  body_of-KeepsOrder is_st1 fuel old = allocate_times-KeepsOrder fuel 5
  body_of-KeepsOrder is_st2 fuel old = st2-KeepsOrder fuel old
  body_of-KeepsOrder is_st3 fuel old = st3-KeepsOrder fuel old
  body_of-KeepsOrder is_st4 fuel old = write_after_read-KeepsOrder b'F' old
  body_of-KeepsOrder is_st5 fuel old = st5-KeepsOrder old
  body_of-KeepsOrder is_ct1 fuel old = ct1-KeepsOrder old
  body_of-KeepsOrder is_ct2 fuel old = read_two-KeepsOrder
  body_of-KeepsOrder is_ct3 fuel old = ct3-KeepsOrder old

-- A test program runs from a transaction that has begun, with an empty block map and replies OK. If
-- its code comes to its end, the messages that it has sent are such that the monitor, on which no
-- block is held and which has numbers left, answers OK to all of them, to the BEGIN before and to
-- the COMMIT and END after them, if nobody else sends any: the replies OK are those of the monitor.
-- The condition is that the number of the transaction is not the one that readers.front() reads from
-- an empty list.
pub test_program-IsGranted :
    (p : TestProgram) (fuel : ℕ) (old : Block) (front_of_empty who : ℕ) (m : Monitor)
    (s : Transaction)
    → Inv m
    → m.next_tid + 1 < trid_mod
    → m.next_tid ≢ front_of_empty
    → ((b holder : ℕ) → ¬ HolderAt m b holder)
    → IsFresh m s
    → Gives (λ _ t. IsGranted front_of_empty who m s t) (body_of p fuel old s)
test_program-IsGranted p fuel old front_of_empty who m s v room apart free k =
    lone_client front_of_empty who m v room apart free s k (body_of p fuel old)
      (body_of-KeepsOrder s.tid s.sent p fuel old)
